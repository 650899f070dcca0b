-- ===== src/Dispatcher/History/Positions.antt =====
-- Comments with distinct positions: sorting them, and picking up to a limit
-- (internal/dispatcher/comment_history.go).
use matea.Base.{
  ℕ, zero, suc, ◌-◌, ◌<◌, true, false, List, [], ◌∷◌, ◌++◌, ◌≡◌, ◌≢◌, refl, sym, ap, ◌∙◌, subst,
  inl, inr, All, take, take-nil, take-zero, take-suc, length, length-append, ltb, leb, Bool-cases,
  arith, append_assoc, append-nil,
}
use matea.Dispatcher.History.{
  Indexed, is_new, pick_preferred, pick_others, insert_by_position, by_position,
}

pub All-insert {ℓ κ} :
    {A : Type ℓ} (P : A → Type κ) (x : A) (xs ys : List A)
    → P x
    → All P (xs ++ ys)
    → All P (xs ++ x ∷ ys)
All-insert P x [] ys h t = (h, t)
All-insert P x (y ∷ xs) ys h t = (t.0, All-insert P x xs ys h t.1)

All-middle {ℓ κ} :
    {A : Type ℓ} (P : A → Type κ) (x : A) (xs ys : List A) → All P (xs ++ x ∷ ys) → P x
All-middle P x [] ys h = h.0
All-middle P x (y ∷ xs) ys h = All-middle P x xs ys h.1

pub All-take_append {ℓ κ} :
    {A : Type ℓ} (P : A → Type κ) (n : ℕ) (xs ys : List A)
    → All P (xs ++ ys)
    → All P (take n xs ++ ys)
All-take_append P zero [] ys h = h
All-take_append P zero (x ∷ xs) ys h = All-take_append P zero xs ys h.1
All-take_append P (suc n) [] ys h = h
All-take_append P (suc n) (x ∷ xs) ys h = (h.0, All-take_append P n xs ys h.1)

All-take {ℓ κ} : {A : Type ℓ} (P : A → Type κ) (n : ℕ) (xs : List A) → All P xs → All P (take n xs)
All-take P zero xs h = tt
All-take P (suc n) [] h = tt
All-take P (suc n) (x ∷ xs) h = (h.0, All-take P n xs h.1)

pub All-append_take {ℓ κ} :
    {A : Type ℓ} (P : A → Type κ) (m : ℕ) (xs ys : List A)
    → All P (xs ++ ys)
    → All P (xs ++ take m ys)
All-append_take P m [] ys h = All-take P m ys h
All-append_take P m (x ∷ xs) ys h = (h.0, All-append_take P m xs ys h.1)

-- after the position, and elsewhere
abbrev pub IsLater : Indexed → Indexed → Type 0
IsLater x y = x.0 < y.0

abbrev pub IsElsewhere : Indexed → Indexed → Type 0
IsElsewhere x y = y.0 ≢ x.0

abbrev pub Distinct : List Indexed → Type 0
Distinct [] = Unit
Distinct (x ∷ xs) = All (IsElsewhere x) xs × Distinct xs

pub Distinct-insert :
    (x : Indexed) (xs ys : List Indexed)
    → All (IsElsewhere x) (xs ++ ys)
    → Distinct (xs ++ ys)
    → Distinct (xs ++ x ∷ ys)
Distinct-insert x [] ys away d = (away, d)
Distinct-insert x (y ∷ xs) ys away d = (
  All-insert (IsElsewhere y) x xs ys (λ e. away.0 (sym e)) d.0,
  Distinct-insert x xs ys away.1 d.1,
)

pub Distinct-take :
    (n : ℕ) (xs ys : List Indexed) → Distinct (xs ++ ys) → Distinct (take n xs ++ ys)
Distinct-take zero [] ys d = d
Distinct-take zero (x ∷ xs) ys d = Distinct-take zero xs ys d.1
Distinct-take (suc n) [] ys d = d
Distinct-take (suc n) (x ∷ xs) ys d =
    (All-take_append (IsElsewhere x) n xs ys d.0, Distinct-take n xs ys d.1)

is_new-Distinct :
    (picked : List Indexed) (x : Indexed) (xs : List Indexed)
    → Distinct (picked ++ x ∷ xs)
    → is_new picked x ≡ true
is_new-Distinct [] x xs d = refl
is_new-Distinct (p ∷ picked) x xs d =
    ground (arith, All-middle (IsElsewhere p) x picked xs d.0, is_new-Distinct picked x xs d.1)

-- the limit is reached
full :
    (limit : ℕ) (picked xs : List Indexed)
    → leb limit (length picked) ≡ true
    → picked ≡ picked ++ take (limit - length picked) xs
full limit picked xs e =
    sym (append-nil picked)
    ∙ ap (λ r. picked ++ r) (sym (take-zero (limit - length picked) xs (ground (arith, e))))

-- one more is picked
one_more :
    (limit : ℕ) (picked : List Indexed) (x : Indexed) (xs : List Indexed)
    → leb limit (length picked) ≡ false
    → (picked ++ x ∷ []) ++ take (limit - length (picked ++ x ∷ [])) xs
      ≡ picked ++ take (limit - length picked) (x ∷ xs)
one_more limit picked x xs e =
    let left = limit - length (picked ++ x ∷ []) in
    append_assoc picked (x ∷ []) (take left xs)
    ∙ ap (λ r. picked ++ r)
        (sym (
          take-suc (limit - length picked) left x xs
            (ground (arith, e, length-append picked (x ∷ [])))))

pub pick_preferred_lem :
    (limit : ℕ) (picked xs : List Indexed)
    → pick_preferred limit picked xs ≡ picked ++ take (limit - length picked) xs
pick_preferred_lem limit picked [] =
    sym (append-nil picked) ∙ ap (λ r. picked ++ r) (sym (take-nil (limit - length picked)))
pick_preferred_lem limit picked (x ∷ xs) = elim (Bool-cases (leb limit (length picked))) [
  | inl e ↦ rw e (full limit picked (x ∷ xs) e)
  | inr e ↦ rw e (pick_preferred_lem limit (picked ++ x ∷ []) xs ∙ one_more limit picked x xs e)
]

pub pick_others_lem :
    (limit : ℕ) (picked xs : List Indexed)
    → Distinct (picked ++ xs)
    → pick_others limit picked xs ≡ picked ++ take (limit - length picked) xs
pick_others_lem limit picked [] d =
    sym (append-nil picked) ∙ ap (λ r. picked ++ r) (sym (take-nil (limit - length picked)))
pick_others_lem limit picked (x ∷ xs) d = elim (Bool-cases (leb limit (length picked))) [
  | inl e ↦ rw e (full limit picked (x ∷ xs) e)
  | inr e ↦
      let later = subst Distinct (sym (append_assoc picked (x ∷ []) xs)) d in
      rw (e, is_new-Distinct picked x xs d)
        (pick_others_lem limit (picked ++ x ∷ []) xs later ∙ one_more limit picked x xs e)
]

insert-All :
    (P : Indexed → Type 0) (x : Indexed) (xs : List Indexed)
    → P x
    → All P xs
    → All P (insert_by_position x xs)
insert-All P x [] h t = (h, t)
insert-All P x (y ∷ ys) h t = elim (Bool-cases (ltb y.0 x.0)) [
  | inl e ↦ rw e (t.0, insert-All P x ys h t.1)
  | inr e ↦ rw e (h, t)
]

by_position-All : (P : Indexed → Type 0) (xs : List Indexed) → All P xs → All P (by_position xs)
by_position-All P [] h = tt
by_position-All P (x ∷ xs) h = insert-All P x (by_position xs) h.0 (by_position-All P xs h.1)

insert-first :
    (x : Indexed) (xs : List Indexed) → All (IsLater x) xs → insert_by_position x xs ≡ x ∷ xs
insert-first x [] h = refl
insert-first x (y ∷ ys) h = ground (arith, h.0)

insert-after :
    (x y : Indexed) (xs : List Indexed)
    → IsLater x y
    → insert_by_position y (x ∷ xs) ≡ x ∷ insert_by_position y xs
insert-after x y xs h = ground (arith, h)

-- What stands before all others comes first.
pub by_position-first :
    (x : Indexed) (xs ys : List Indexed)
    → All (IsLater x) (xs ++ ys)
    → by_position (xs ++ x ∷ ys) ≡ x ∷ by_position (xs ++ ys)
by_position-first x [] ys h = insert-first x (by_position ys) (by_position-All (IsLater x) ys h)
by_position-first x (y ∷ xs) ys h =
    ap (insert_by_position y) (by_position-first x xs ys h.1)
    ∙ insert-after x y (by_position (xs ++ ys)) h.0
