-- ===== src/Sandbox/Files/Keeps.antt =====
-- What the file operations of a workspace keep (internal/sandbox/sandbox.go).
use matea.Base.{
  split_on, split_on-pos, join_with-split_on, ℕ, ◌-◌, ◌≤◌, Text, text_eq, text_eq_sound,
  text_eq_refl, true, false, none, some, take-all, length, ltb, leb, if◌then◌else◌, ◌≡◌, ◌≢◌, refl,
  sym, ◌∙◌, ap, arith, Bool-cases, inl, inr,
}
use matea.Sandbox.{Sandbox, validate_path}
use matea.Sandbox.Files.{
  Files, set_file, apply_write, too_large, outside_workspace, done, Writing, no_directory, no_file,
  cut_short, written, write_file, read_file, line_range, read_file_with_lines,
}

pub line_range-whole :
    (end_line : ℕ) (t : Text) → length (split_on 10 t) ≤ end_line → line_range 1 end_line t ≡ t
line_range-whole end_line t long =
    let n = length (split_on 10 t) in
    let positive : leb n 0 ≡ false = ground (arith, split_on-pos 10 t) in
    let last : (if ltb n end_line then n else end_line) ≡ n = ground (arith, long) in
    rw (last, positive, take-all (n - 0) (split_on 10 t) (omega arith)) (join_with-split_on 10 t)

module _ (clean lower : Text → Text) (join_path : Text → Text → Text) where
  apply_write-done :
      (writing : Writing) (path content : Text) (files after : Files)
      → apply_write clean lower join_path writing path content files ≡ (none, after)
      → after ≡ set_file path content files
  apply_write-done no_directory path content files after h = absurd (cc (ap (λ r. r.0) h))
  apply_write-done no_file path content files after h = absurd (cc (ap (λ r. r.0) h))
  apply_write-done (cut_short left) path content files after h = absurd (cc (ap (λ r. r.0) h))
  apply_write-done written path content files after h = sym (ap (λ r. r.1) h)

  write_file-done :
      (s : Sandbox) (writing : Writing) (path content : Text) (files after : Files)
      → write_file clean lower join_path s writing path content files ≡ (none, after)
      → (validate_path clean lower s.work_dir (join_path s.work_dir path) ≡ true)
        × (after ≡ set_file (join_path s.work_dir path) content files)
  unfolding write_file
  write_file-done s writing path content files after h =
      elim (Bool-cases (ltb s.max_file_size (length content))) [
        | inl e ↦
            let large : write_file clean lower join_path s writing path content files
                ≡ (some too_large, files) =
              rw e refl in
            absurd (cc (ap (λ r. r.0) (sym large ∙ h)))
        | inr e ↦
            elim (Bool-cases (validate_path clean lower s.work_dir (join_path s.work_dir path))) [
              | inr v ↦
                  let out : write_file clean lower join_path s writing path content files
                      ≡ (some outside_workspace, files) =
                    rw (e, v) refl in
                  absurd (cc (ap (λ r. r.0) (sym out ∙ h)))
              | inl v ↦
                  let applied : write_file clean lower join_path s writing path content files
                      ≡ apply_write clean lower join_path writing (join_path s.work_dir path)
                          content files =
                    rw (e, v) refl in
                  (
                    v,
                    apply_write-done writing (join_path s.work_dir path) content files after
                        (sym applied ∙ h),
                  )
            ]
      ]

  set_file-other :
      (full content : Text) (files after : Files)
      → after ≡ set_file full content files
      → (q : Text) → q ≢ full
      → after q ≡ files q
  set_file-other full content files after set q other = elim (Bool-cases (text_eq q full)) [
    | inl e ↦ absurd (other (text_eq_sound q full e))
    | inr e ↦ rw (set, e) refl
  ]

  -- A file that is written with success is read back with the same content, whole or as the range of all
  -- its lines, and no other file has changed.
  pub write_file-read_back :
      (s : Sandbox) (writing : Writing) (path content : Text) (end_line : ℕ) (files after : Files)
      → write_file clean lower join_path s writing path content files ≡ (none, after)
      → length (split_on 10 content) ≤ end_line
      → (read_file clean lower join_path s true path after ≡ done content)
        × (read_file_with_lines clean lower join_path s true path 1 end_line after ≡ done content)
        × ((q : Text) → q ≢ join_path s.work_dir path → after q ≡ files q)
  unfolding read_file read_file_with_lines
  write_file-read_back s writing path content end_line files after h long =
      let (valid, set) = write_file-done s writing path content files after h in
      let full = join_path s.work_dir path in
      let here : after full ≡ some content = rw (set, text_eq_refl full) refl in
      let whole : read_file clean lower join_path s true path after ≡ done content =
        rw (valid, here) refl in
      (
        whole,
        rw (whole, line_range-whole end_line content long) refl,
        λ q other. set_file-other full content files after set q other,
      )
