-- ===== src/Store/Memories/Shared.antt =====
-- What a memory that is set changes (internal/store/memory.go).
use matea.Base.{
  ℕ, String, str_eq, eq_iff, Bool, true, false, ◌&&◌, [], ◌∷◌, ◌==◌, ==_iff, if◌then◌else◌, ◌≡◌,
  refl, ap, ◌∙◌, arith, Bool-cases, inl, inr,
}
use matea.Store.Memories.{Memory, Memories, is_memory, set_memory, get_memory}

-- the same repository, issue and key
abbrev pub is_same : String → ℕ → String → String → ℕ → String → Bool
is_same repo issue_id key repo' issue_id' key' =
    str_eq repo repo' && issue_id == issue_id' && str_eq key key'

is_memory-is_same :
    (repo : String) (i : ℕ) (key : String) (repo' : String) (i' : ℕ) (key' : String) (r : Memory)
    → is_memory repo i key r ≡ true
    → is_memory repo' i' key' r ≡ is_same repo i key repo' i' key'
is_memory-is_same repo i key repo' i' key' r h =
    let at : r.repo ≡ repo = (eq_iff r.repo repo).0 (ground (arith, h)) in
    let on : r.issue_id ≡ i = (==_iff r.issue_id i).0 (ground (arith, h)) in
    let named : r.key ≡ key = (eq_iff r.key key).0 (ground (arith, h)) in
    ap (λ (x : String). str_eq x repo' && r.issue_id == i' && str_eq r.key key') at
    ∙ ap (λ (x : ℕ). str_eq repo repo' && x == i' && str_eq r.key key') on
    ∙ ap (λ (x : String). str_eq repo repo' && i == i' && str_eq x key') named

is_same-is_memory :
    (repo : String) (i : ℕ) (key : String) (repo' : String) (i' : ℕ) (key' : String) (r : Memory)
    → is_memory repo' i' key' r ≡ true
    → is_memory repo i key r ≡ false
    → is_same repo i key repo' i' key' ≡ false
is_same-is_memory repo i key repo' i' key' r here other =
    elim (Bool-cases (is_same repo i key repo' i' key')) [
      | inr e ↦ e
      | inl e ↦
          let at : repo ≡ repo' = (eq_iff repo repo').0 (ground (arith, e)) in
          let on : i ≡ i' = (==_iff i i').0 (ground (arith, e)) in
          let named : key ≡ key' = (eq_iff key key').0 (ground (arith, e)) in
          let same : is_memory repo i key r ≡ is_memory repo' i' key' r =
            ap (λ (x : String). is_memory x i key r) at
            ∙ ap (λ (x : ℕ). is_memory repo' x key r) on
            ∙ ap (λ (x : String). is_memory repo' i' x r) named in
          absurd (cc (same, here, other))
    ]

-- A memory that is set is read back, and every other one stays as it was.
pub get-set_memory :
    (now : ℕ) (repo : String) (issue_id : ℕ) (key value : String) (repo' : String) (issue_id' : ℕ)
    (key' : String) (t : Memories)
    → get_memory repo' issue_id' key' (set_memory now repo issue_id key value t) ≡ (
        if is_same repo issue_id key repo' issue_id' key'
        then value
        else get_memory repo' issue_id' key' t)
unfolding get_memory set_memory
get-set_memory now repo i key value repo' i' key' [] = ground arith
get-set_memory now repo i key value repo' i' key' (r ∷ t) =
    let rest = get-set_memory now repo i key value repo' i' key' t in
    elim (Bool-cases (is_memory repo i key r)) [
      | inl e ↦
          let same = is_memory-is_same repo i key repo' i' key' r e in
          elim (Bool-cases (is_same repo i key repo' i' key')) [
            | inl k ↦ rw (e, same, k) refl
            | inr k ↦ rw (e, same, k) refl
          ]
      | inr e ↦ elim (Bool-cases (is_memory repo' i' key' r)) [
        | inl k ↦ rw (e, k, is_same-is_memory repo i key repo' i' key' r k e) refl
        | inr k ↦ rw (e, k) rest
      ]
    ]
