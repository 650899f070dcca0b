-- ===== src/Sandbox/Output.antt =====
-- The output of a command: limitWriter and Execute of internal/sandbox/sandbox.go. The pieces that the command
-- writes and how it ends are arguments; the library copies them to the writers and, as documented, stops with an
-- error at a write that reports fewer bytes than it was given.
pub mod Captures
use matea.Base.{
  ℕ, zero, suc, ◌+◌, ◌-◌, Text, Bool, true, false, ◌&&◌, Option, none, some, List, [], ◌∷◌, ◌++◌,
  take, length, ltb, leb, ◌==◌, if◌then◌else◌,
}
use matea.Sandbox.{Sandbox, is_allowed}

pub record LimitWriter : Type 0 where
  pub max : ℕ
  pub written : ℕ
  pub content : Text

abbrev pub new_limit_writer : ℕ → LimitWriter
new_limit_writer max = record { max = max; written = 0; content = [] }

-- the number of bytes it reports, and the writer after it
unfoldable pub write : LimitWriter → Text → ℕ × LimitWriter
write l p =
    let remaining = l.max - l.written in
    let kept = if ltb remaining (length p) then take remaining p else p in
    if leb remaining 0 then (length p, l) else (
      length kept,
      record { max = l.max; written = l.written + length kept; content = l.content ++ kept },
    )

-- io.Copy of the pieces: whether it ends without an error, and the writer after it
unfoldable pub copy : LimitWriter → List Text → Bool × LimitWriter
unfolding write
copy l [] = (true, l)
copy l (p ∷ pieces) =
    let (n, l') = write l p in
    let rest = copy l' pieces in if n == length p then rest else (false, l')

-- how the process ends: never started, with an exit code, or by a signal, as at the timeout
pub data Ended : Type 0 where
  not_started : Ended
  exited : ℕ → Ended
  signalled : Ended

pub data ExitCode : Type 0 where
  code : ℕ → ExitCode
  minus_one : ExitCode

pub record Result : Type 0 where
  pub stdout : Text
  pub stderr : Text
  pub exit_code : ExitCode
  pub has_error : Bool

-- cmd.Run: an exit code of 0 still ends in the error of a copy, which is no ExitError
abbrev pub run_end : Ended → Bool → ExitCode × Bool
run_end not_started copied = (minus_one, true)
run_end (exited zero) copied = if copied then (code 0, false) else (minus_one, true)
run_end (exited (suc c)) copied = (code (suc c), true)
run_end signalled copied = (minus_one, true)

unfoldable pub execute : (Text → Text) → Sandbox → Text → List Text → List Text → Ended → Result
unfolding is_allowed copy
execute base s command out_pieces err_pieces ended =
    let (out_copied, out) = copy (new_limit_writer s.max_output) out_pieces in
    let (err_copied, err) = copy (new_limit_writer s.max_output) err_pieces in
    let (exit, failed) = run_end ended (out_copied && err_copied) in
    if is_allowed base command
    then record { stdout = out.content; stderr = err.content; exit_code = exit; has_error = failed }
    else record { stdout = []; stderr = []; exit_code = minus_one; has_error = true }
