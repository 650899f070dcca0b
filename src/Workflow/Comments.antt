-- ===== src/Workflow/Comments.antt =====
-- The texts of internal/workflow/resolver.go: code blocks, slash commands, mentions and references to
-- issues. The regular expressions of the source are written out as scanners of a text's characters.
-- Each scanner meets a character once, so it goes on from the next character where the source goes on
-- behind a match: no match can begin inside one.
use matea.Base.{
  is_empty, ℕ, zero, suc, ◌+◌, ◌-◌, ◌*◌, ◌^◌, Text, codes, Bool, true, false, not, ◌&&◌, ◌||◌,
  Option, none, some, List, [], ◌∷◌, ◌++◌, ◌==◌, leb, ltb, text_eq, has_prefix, any, if◌then◌else◌,
  map,
}

abbrev pub agent_comment_marker : Text
agent_comment_marker = codes "<!-- matea-agent -->"

unfoldable pub format_agent_comment : Text → Text
format_agent_comment body = agent_comment_marker ++ 10 ∷ body

unfoldable pub is_agent_comment : Text → Bool
is_agent_comment body = has_prefix body agent_comment_marker

abbrev pub is_digit : ℕ → Bool
is_digit c = leb b'0' c && leb c b'9'

-- \w
abbrev pub is_word : ℕ → Bool
is_word c = is_digit c || (leb b'A' c && leb c b'Z') || (leb b'a' c && leb c b'z') || c == b'_'

-- \s
abbrev pub is_re_space : ℕ → Bool
is_re_space c = c == 9 || c == 10 || c == 12 || c == 13 || c == 32

-- [\w-]
abbrev pub is_name : ℕ → Bool
is_name c = is_word c || c == b'-'

-- the longest prefix of characters that pass the test, and what follows it
abbrev pub span : (ℕ → Bool) → Text → Text × Text
span p [] = ([], [])
span p (c ∷ s) = let rest = span p s in if p c then (c ∷ rest.0, rest.1) else ([], c ∷ s)

abbrev pub fence : Text
fence = codes "```"

abbrev pub tick : ℕ
tick = b'`'

abbrev pub has_fence : Text → Bool
has_fence [] = false
has_fence (c ∷ s) = has_prefix (c ∷ s) fence || has_fence s

-- a whole block ```...``` begins here
abbrev pub opens_block : Text → Bool
opens_block (a ∷ b ∷ c ∷ s) = has_prefix (a ∷ b ∷ c ∷ s) fence && has_fence s
opens_block _ = false

-- where a scanner for blocks stands; the number is how many characters of a fence it has yet to pass
pub data Mode : Type 0 where
  outside : Mode
  opening : ℕ → Mode
  closing : ℕ → Mode

abbrev pub next_outside : Text → Mode
next_outside t = if opens_block t then opening 2 else outside

abbrev pub next_inside : Text → Mode
next_inside t = if has_prefix t fence then closing 2 else opening 0

abbrev pub next_mode : Mode → Text → Mode
next_mode outside t = next_outside t
next_mode (opening zero) t = next_inside t
next_mode (opening (suc n)) t = opening n
next_mode (closing zero) t = next_outside t
next_mode (closing (suc n)) t = closing n

abbrev pub keeps : Mode → Text → Bool
keeps outside t = not (opens_block t)
keeps (closing zero) t = not (opens_block t)
keeps _ t = false

-- (?s)```.*?``` replaced by nothing
unfoldable pub strip_blocks : Mode → Text → Text
strip_blocks m [] = []
strip_blocks m (c ∷ s) =
    let rest = strip_blocks (next_mode m (c ∷ s)) s in if keeps m (c ∷ s) then c ∷ rest else rest

abbrev pub has_tick : Text → Bool
has_tick [] = false
has_tick (c ∷ s) = c == tick || has_tick s

-- `[^`]*` replaced by nothing; the flag says that the scanner is inside inline code
unfoldable pub strip_inline : Bool → Text → Text
strip_inline inside [] = []
strip_inline inside (c ∷ s) =
    let opens = c == tick && has_tick s in
    let rest = strip_inline (if inside then not (c == tick) else opens) s in
    if inside || opens then rest else c ∷ rest

unfoldable pub strip_code_blocks : Text → Text
unfolding strip_blocks strip_inline
strip_code_blocks text = strip_inline false (strip_blocks outside text)

-- the commands of (?m)^/(\w+); the flag says that a line begins
unfoldable pub slash_commands : Bool → Text → List Text
slash_commands line_start [] = []
slash_commands line_start (c ∷ s) =
    let rest = slash_commands (c == 10) s in
    let word = (span is_word s).0 in
    if line_start && c == b'/' && not (is_empty word) then word ∷ rest else rest

unfoldable pub has_slash_command : Text → Text → Bool
unfolding strip_code_blocks slash_commands
has_slash_command body command =
    any (λ w. text_eq w command) (slash_commands true (strip_code_blocks body))

abbrev pub starts_name : Text → Bool
starts_name [] = false
starts_name (c ∷ s) = is_word c

-- the names of @(\w[\w-]*)
unfoldable pub mentions : Text → List Text
mentions [] = []
mentions (c ∷ s) =
    let rest = mentions s in if c == b'@' && starts_name s then (span is_name s).0 ∷ rest else rest

-- (?i) on the letters of the keywords; U+017F folds to s
abbrev pub fold_case : ℕ → ℕ
fold_case c = if leb b'A' c && leb c b'Z' then c + 32 else if c == 0x17f then b's' else c

-- what follows the keyword, if the text begins with it
unfoldable pub after_keyword : Text → Text → Option Text
after_keyword [] t = some t
after_keyword (k ∷ ks) [] = none
after_keyword (k ∷ ks) (c ∷ t) = if fold_case c == k then after_keyword ks t else none

-- #(\d+), the digits
unfoldable pub hash_digits : Text → Option Text
hash_digits [] = none
hash_digits (c ∷ t) =
    let digits = (span is_digit t).0 in
    if c == b'#' && not (is_empty digits) then some digits else none

-- \s+#(\d+)
unfoldable pub reference_digits : Text → Option Text
unfolding hash_digits
reference_digits [] = none
reference_digits (c ∷ t) = if is_re_space c then hash_digits (span is_re_space t).1 else none

abbrev pub or_try : Option Text → Option Text → Option Text
or_try (some d) o = some d
or_try none o = o

abbrev pub after_match : Option Text → Option Text
after_match none = none
after_match (some t) = reference_digits t

-- the first of the keywords with which a reference begins here
unfoldable pub match_here : List Text → Text → Option Text
unfolding after_keyword reference_digits
match_here [] t = none
match_here (k ∷ ks) t = or_try (after_match (after_keyword k t)) (match_here ks t)

-- the leftmost reference
unfoldable pub search_reference : List Text → Text → Option Text
unfolding match_here
search_reference ks [] = none
search_reference ks (c ∷ t) = or_try (match_here ks (c ∷ t)) (search_reference ks t)

-- fix(?:es|ed)?|close[sd]?|resolve[sd]?
abbrev pub closing_words : List Text
closing_words = map codes (
    "fixes" ∷ "fixed" ∷ "fix" ∷ "closes" ∷ "closed" ∷ "close" ∷ "resolves" ∷ "resolved" ∷ "resolve"
    ∷ [])

-- refs?|references?
abbrev pub referencing_words : List Text
referencing_words = map codes ("refs" ∷ "ref" ∷ "references" ∷ "reference" ∷ [])

abbrev pub decimal : ℕ → Text → ℕ
decimal n [] = n
decimal n (c ∷ s) = decimal (n * 10 + (c - b'0')) s

-- strconv.Atoi on digits, with its range error, and the test n > 0
abbrev pub issue_number : Option Text → Option ℕ
issue_number none = none
issue_number (some digits) =
    let n = decimal 0 digits in if leb n (2 ^ 63 - 1) && ltb 0 n then some n else none

-- 0 if there is no reference
unfoldable pub extract_linked_issue : Text → ℕ
unfolding search_reference
extract_linked_issue body = elim (issue_number (search_reference closing_words body)) [
  | some n ↦ n
  | none ↦ elim (issue_number (search_reference referencing_words body)) [ some n ↦ n | none ↦ 0 ]
]
