-- ===== src/Tests/OfSandbox.antt =====
-- Commands and files in a workspace: internal/sandbox/sandbox.go.
use matea.Base.{Text, codes, false, true, none, [], ◌∷◌, ◌++◌, ◌≡◌, ◌≢◌, refl, arith, take, List}
use matea.Sandbox.{Sandbox, is_allowed, validate_path}
use matea.Sandbox.Output.{exited, execute}
use matea.Sandbox.Output.Captures.{join, execute-takes}
use matea.Sandbox.Files.{
  Files, Answer, Writing, set_file, write_file, read_file, read_file_with_lines,
}
use matea.Sandbox.Files.Keeps.{write_file-read_back}

abbrev workspace : Sandbox
workspace = record {
  work_dir = codes "/w";
  max_output = 5;
  max_file_size = 100;
  persistent = false;
}

abbrev same : Text → Text
same t = t

abbrev join_path : Text → Text → Text
join_path dir path = dir ++ (codes "/" ++ path)

-- three bytes, then four, of which two are kept
abbrev pieces : List Text
pieces = codes "abc" ∷ codes "defg" ∷ []

execute-takes_example :
    ((execute same workspace (codes "cat") pieces [] (exited 0)).stdout ≡ take 5 (join pieces))
    × ((execute same workspace (codes "cat") pieces [] (exited 0)).stderr ≡ take 5 (join []))
unfolding is_allowed
execute-takes_example = execute-takes same workspace (codes "cat") pieces [] (exited 0) refl

abbrev no_files : Files
no_files path = none

abbrev two_lines : Text
two_lines = codes "ab" ++ (10 ∷ codes "cd")

write_file-read_back_example :
    (read_file same same join_path workspace true
        (codes "a")
        (set_file (codes "/w/a") two_lines no_files)
      ≡ Answer.done two_lines)
    × (read_file_with_lines same same join_path workspace true
          (codes "a")
          1
          2
          (set_file (codes "/w/a") two_lines no_files)
        ≡ Answer.done two_lines)
    × ((q : Text) → q ≢ codes "/w/a" → set_file (codes "/w/a") two_lines no_files q ≡ no_files q)
unfolding write_file validate_path
write_file-read_back_example =
    write_file-read_back same same join_path workspace Writing.written (codes "a") two_lines 2
      no_files (set_file (codes "/w/a") two_lines no_files) refl (omega arith)
