-- ===== src/Sandbox.antt =====
-- The workspace of a task: internal/sandbox/sandbox.go on Unix. Clean, Join, Base and ToLower are the
-- library's, and arguments.
pub mod Output
pub mod Files
use matea.Base.{
  ℕ, Text, codes, text_eq, Bool, true, false, not, ◌||◌, List, [], ◌∷◌, ◌++◌, any, map, has_prefix,
  if◌then◌else◌,
}

pub record Sandbox : Type 0 where
  pub work_dir : Text
  pub max_output : ℕ
  pub max_file_size : ℕ
  pub persistent : Bool

abbrev pub allowed_cmds : List Text
allowed_cmds = map codes (
    "sh" ∷ "bash" ∷ "cmd" ∷ "powershell" ∷ "pwsh" ∷ "git" ∷ "go" ∷ "make" ∷ "cargo" ∷ "python"
    ∷ "python3" ∷ "node" ∷ "npm" ∷ "npx" ∷ "cat" ∷ "ls" ∷ "pwd" ∷ "echo" ∷ "grep" ∷ "rg" ∷ "find"
    ∷ "head" ∷ "tail" ∷ "wc" ∷ "sort" ∷ "mkdir" ∷ "cp" ∷ "mv" ∷ "touch" ∷ "rm" ∷ "dir" ∷ "type"
    ∷ "where" ∷ "findstr" ∷ "tree" ∷ "pytest" ∷ "jest" ∷ "mocha" ∷ [])

-- strings.TrimSuffix and strings.HasSuffix
abbrev pub trim_suffix : Text → Text → Text
trim_suffix [] suffix = []
trim_suffix (c ∷ s) suffix =
    let rest = trim_suffix s suffix in if text_eq (c ∷ s) suffix then [] else c ∷ rest

abbrev pub has_suffix : Text → Text → Bool
has_suffix [] suffix = text_eq [] suffix
has_suffix (c ∷ s) suffix = text_eq (c ∷ s) suffix || has_suffix s suffix

unfoldable pub is_allowed : (Text → Text) → Text → Bool
is_allowed base command = any (text_eq (trim_suffix (base command) (codes ".exe"))) allowed_cmds

module _ (clean lower : Text → Text) where
  -- the working directory of the comparison, which ends with a separator
  abbrev pub prefix_of : Text → Text
  prefix_of work_dir =
      let w = lower (clean work_dir) in if has_suffix w (codes "/") then w else w ++ codes "/"

  unfoldable pub validate_path : Text → Text → Bool
  validate_path work_dir path =
      has_prefix (lower (clean path)) (prefix_of work_dir)
      || text_eq (lower (clean path)) (trim_suffix (prefix_of work_dir) (codes "/"))
