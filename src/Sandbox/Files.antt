-- ===== src/Sandbox/Files.antt =====
-- The files of a workspace: WriteFile, ReadFile and ReadFileWithLines of internal/sandbox/sandbox.go. The file
-- system is a function from paths; what the system makes of a write, and whether it can read, are arguments.
pub mod Keeps
use matea.Base.{
  split_on, join_with, ℕ, zero, suc, ◌-◌, Text, text_eq, Bool, true, false, not, Option, none, some,
  List, [], ◌∷◌, ◌++◌, take, drop, length, ltb, leb, ◌==◌, if◌then◌else◌,
}
use matea.Sandbox.{Sandbox, validate_path}

abbrev pub Files : Type 0
Files = Text → Option Text

abbrev pub set_file : Text → Text → Files → Files
set_file path content files q = if text_eq q path then some content else files q

pub data FileError : Type 0 where
  too_large : FileError
  outside_workspace : FileError
  not_made : FileError
  not_written : FileError
  not_read : FileError

pub data Answer {ℓ} (A : Type ℓ) : Type ℓ where
  done : A → Answer A
  failed : FileError → Answer A

-- what os.MkdirAll and os.WriteFile do: a write that fails may leave a part of the content
pub data Writing : Type 0 where
  no_directory : Writing
  no_file : Writing
  cut_short : Text → Writing
  written : Writing

-- the lines from start_line to end_line, counted from 1
abbrev pub line_range : ℕ → ℕ → Text → Text
line_range start_line end_line content =
    let lines = split_on 10 content in
    let start = start_line - 1 in
    let end = if ltb (length lines) end_line then length lines else end_line in
    if leb end start then [] else join_with 10 (take (end - start) (drop start lines))

abbrev pub map_answer : (Text → Text) → Answer Text → Answer Text
map_answer f (done content) = done (f content)
map_answer f (failed e) = failed e

module _ (clean lower : Text → Text) (join_path : Text → Text → Text) where
  abbrev pub apply_write : Writing → Text → Text → Files → Option FileError × Files
  apply_write no_directory path content files = (some not_made, files)
  apply_write no_file path content files = (some not_written, files)
  apply_write (cut_short left) path content files = (some not_written, set_file path left files)
  apply_write written path content files = (none, set_file path content files)

  unfoldable pub write_file : Sandbox → Writing → Text → Text → Files → Option FileError × Files
  write_file s writing path content files =
      let full_path = join_path s.work_dir path in
      if ltb s.max_file_size (length content)
      then (some too_large, files)
      else if not (validate_path clean lower s.work_dir full_path)
      then (some outside_workspace, files)
      else apply_write writing full_path content files

  abbrev pub content_of : Option Text → Answer Text
  content_of none = failed not_read
  content_of (some content) = done content

  unfoldable pub read_file : Sandbox → Bool → Text → Files → Answer Text
  read_file s can_read path files =
      let full_path = join_path s.work_dir path in
      if not (validate_path clean lower s.work_dir full_path)
      then failed outside_workspace
      else if can_read
      then content_of (files full_path)
      else failed not_read

  unfoldable pub read_file_with_lines : Sandbox → Bool → Text → ℕ → ℕ → Files → Answer Text
  unfolding read_file
  read_file_with_lines s can_read path start_line end_line files =
      map_answer (line_range start_line end_line) (read_file s can_read path files)
