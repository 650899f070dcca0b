-- ===== src/Dispatcher/History.antt =====
-- The comments that a coder is given: internal/dispatcher/comment_history.go. Texts are bytes;
-- strings.TrimSpace is an argument, and so is the map of the preferred names.
pub mod Positions
pub mod Selection
use matea.Base.{
  ℕ, suc, Text, codes, is_empty, contains, Bool, true, false, not, ◌&&◌, ◌||◌, List, [], ◌∷◌, ◌++◌,
  map, any, select, take, length, ltb, leb, ◌==◌, if◌then◌else◌,
}

-- gitea.IssueComment, of which the author and the text are read
pub record IssueComment : Type 0 where
  pub login : Text
  pub body : Text

abbrev pub max_comment_body_chars : ℕ
max_comment_body_chars = 8000

-- the mark of a ping, in UTF-8
abbrev pub started_mark : Text
started_mark =
    0xe5 ∷ 0xb7 ∷ 0xb2 ∷ 0xe5 ∷ 0xbc ∷ 0x80 ∷ 0xe5 ∷ 0xa7 ∷ 0x8b ∷ 0xe5 ∷ 0xa4 ∷ 0x84 ∷ 0xe7 ∷ 0x90
    ∷ 0x86 ∷ []

-- a comment with its position
abbrev pub Indexed : Type 0
Indexed = ℕ × IssueComment

abbrev pub is_new : List Indexed → Indexed → Bool
is_new seen item = not (any (λ (p : Indexed). p.0 == item.0) seen)

-- the loop over the preferred comments: the limit, what is picked already and the rest
abbrev pub pick_preferred : ℕ → List Indexed → List Indexed → List Indexed
pick_preferred limit picked [] = picked
pick_preferred limit picked (item ∷ items) =
    let rest = pick_preferred limit (picked ++ item ∷ []) items in
    if leb limit (length picked) then picked else rest

-- the loop over the others
abbrev pub pick_others : ℕ → List Indexed → List Indexed → List Indexed
pick_others limit picked [] = picked
pick_others limit picked (item ∷ items) =
    let rest = pick_others limit (picked ++ item ∷ []) items in
    let skipped = pick_others limit picked items in
    if leb limit (length picked) then picked else if is_new picked item then rest else skipped

abbrev pub insert_by_position : Indexed → List Indexed → List Indexed
insert_by_position x [] = x ∷ []
insert_by_position x (y ∷ ys) =
    let rest = insert_by_position x ys in if ltb y.0 x.0 then y ∷ rest else x ∷ y ∷ ys

-- sort.Slice
abbrev pub by_position : List Indexed → List Indexed
by_position [] = []
by_position (x ∷ xs) = insert_by_position x (by_position xs)

module _ (trim : Text → Text) (prefers : Text → Bool) where
  unfoldable pub is_progress_only_comment : Text → Bool
  is_progress_only_comment body =
      let trimmed = trim body in
      if ltb 240 (length trimmed) then false else contains trimmed started_mark

  unfoldable pub is_useful : IssueComment → Bool
  is_useful c = not (is_empty (trim c.body) || is_progress_only_comment c.body)

  abbrev pub add : Indexed → List Indexed × List Indexed → List Indexed × List Indexed
  add item (preferred, others) =
      if not (is_useful item.1)
      then (preferred, others)
      else if prefers item.1.login
      then (preferred ++ item ∷ [], others)
      else (preferred, others ++ item ∷ [])

  -- the loop from the last comment to the first, whose position is `i`
  abbrev pub candidates : ℕ → List IssueComment → List Indexed × List Indexed
  candidates i [] = ([], [])
  candidates i (c ∷ cs) = add (i, c) (candidates (suc i) cs)

  unfoldable pub select_comments_for_context : List IssueComment → ℕ → List IssueComment
  unfolding is_useful
  select_comments_for_context comments limit =
      if leb limit 0 || is_empty comments
      then []
      else let (preferred, others) = candidates 0 comments in
        map (λ (p : Indexed). p.1)
          (by_position (pick_others limit (pick_preferred limit [] preferred) others))

  unfoldable pub truncate_comment_body : Text → ℕ → Text
  truncate_comment_body body max_chars =
      let trimmed = trim body in
      if leb max_chars 0 || leb (length trimmed) max_chars
      then trimmed
      else take max_chars trimmed ++ (10 ∷ 0xe2 ∷ 0x80 ∷ 0xa6 ∷ codes "(truncated)")

  unfoldable pub format_one_comment : IssueComment → Bool → Text
  unfolding truncate_comment_body
  format_one_comment c review =
      let label = if review then c.login ++ codes " [review]" else c.login in
      (b'[' ∷ label)
      ++ (codes "]:\n" ++ (truncate_comment_body c.body max_comment_body_chars ++ codes "\n\n"))

  abbrev pub format_all : Bool → List IssueComment → Text
  format_all review [] = []
  format_all review (c ∷ cs) = format_one_comment c review ++ format_all review cs

  unfoldable pub format_comment_history : List IssueComment → Text
  unfolding format_one_comment
  format_comment_history comments =
      if is_empty comments
      then []
      else codes
          "\n## Recent PR / Issue comments\nUse this thread (especially review feedback) when applying the requested changes.\n\n"
        ++ (if any (λ (c : IssueComment). prefers c.login) comments
            then codes "### Review feedback (priority)\n"
              ++ (format_all true (select (λ (c : IssueComment). prefers c.login) comments)
                  ++ (codes "### Other recent comments\n"
                      ++ format_all false
                          (select (λ (c : IssueComment). not (prefers c.login)) comments)))
            else format_all false comments)
