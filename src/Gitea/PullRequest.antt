-- ===== src/Gitea/PullRequest.antt =====
-- A pull request as PRGet decodes it, and its readers: internal/gitea/pr.go. A number, a Boolean, an array
-- or null is `other`, and so is what a key that is missing gives.
use matea.Base.{Text, codes, text_eq, Option, none, some, List, [], ◌∷◌, if◌then◌else◌}

mutual
  -- interface{}
  pub data Json : Type 0 where
    text : Text → Json
    object : Object → Json
    other : Json

  -- map[string]interface{}
  pub data Object : Type 0 where
    empty : Object
    field : Text → Json → Object → Object

-- the value of a key
abbrev pub value_at : Text → Object → Json
value_at key Object.empty = Json.other
value_at key (Object.field k v o) = let rest = value_at key o in if text_eq k key then v else rest

abbrev pub string_of : Json → Option Text
string_of (Json.text []) = none
string_of (Json.text (c ∷ s)) = some (c ∷ s)
string_of (Json.object o) = none
string_of Json.other = none

-- the loop over the path, from the value that it has come to
abbrev pub follow : Json → List Text → Option Text
follow cur [] = string_of cur
follow (Json.object o) (key ∷ path) = follow (value_at key o) path
follow (Json.text s) (key ∷ path) = none
follow Json.other (key ∷ path) = none

unfoldable pub pr_string : Object → List Text → Option Text
pr_string pr [] = none
pr_string pr (key ∷ path) = follow (Json.object pr) (key ∷ path)

abbrev pub pr_head_ref : Object → Option Text
pr_head_ref pr = pr_string pr (codes "head" ∷ codes "ref" ∷ [])

abbrev pub pr_head_sha : Object → Option Text
pr_head_sha pr = pr_string pr (codes "head" ∷ codes "sha" ∷ [])

abbrev pub pr_state : Object → Option Text
pr_state pr = pr_string pr (codes "state" ∷ [])

abbrev pub pr_base_ref : Object → Option Text
pr_base_ref pr = pr_string pr (codes "base" ∷ codes "ref" ∷ [])
