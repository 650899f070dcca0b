-- ===== src/Sandbox/Output/Captures.antt =====
-- What is kept of a command's output (internal/sandbox/sandbox.go).
use matea.Base.{
  ℕ, ◌-◌, Text, true, false, List, [], ◌∷◌, ◌++◌, take, take-all, take-nil, take-append_inside,
  take-append_past, length, length-take, length-append, ltb, leb, ◌==◌, if◌then◌else◌, ◌≡◌, refl,
  sym, ◌∙◌, ap, ◌≤◌, ◌<◌, arith, Bool-cases, inl, inr,
}
use mathlib.Core.List.{append-nil, append_assoc}
use matea.Sandbox.{Sandbox, is_allowed}
use matea.Sandbox.Output.{
  LimitWriter, new_limit_writer, write, copy, Ended, exited, minus_one, execute,
}

abbrev pub join : List Text → Text
join [] = []
join (p ∷ pieces) = p ++ join pieces

-- the writer that holds the text
abbrev pub holding : ℕ → Text → LimitWriter
holding max t = record { max = max; written = length t; content = t }

-- the writer that has been given the text
abbrev pub given : ℕ → Text → LimitWriter
given max t = holding max (take max t)

write-full :
    (max : ℕ) (c p : Text) → length c ≡ max → write (holding max c) p ≡ (length p, holding max c)
unfolding write
write-full max c p h =
    let none_left : leb (max - length c) 0 ≡ true = ground (arith, h) in rw none_left refl

kept-take : (n : ℕ) (p : Text) → (if ltb n (length p) then take n p else p) ≡ take n p
kept-take n p = elim (Bool-cases (ltb n (length p))) [
  | inl e ↦ rw e refl
  | inr e ↦ rw e (sym (take-all n p (ground (arith, e))))
]

write-room :
    (max : ℕ) (c p : Text)
    → length c < max
    → write (holding max c) p
      ≡ (length (take (max - length c) p), holding max (c ++ take (max - length c) p))
unfolding write
write-room max c p h =
    let some_left : leb (max - length c) 0 ≡ false = ground (arith, h) in
    rw (some_left, kept-take (max - length c) p)
      (rw (length-append c (take (max - length c) p)) refl)

write-given : (max : ℕ) (t p : Text) → (write (given max t) p).1 ≡ given max (t ++ p)
write-given max t p = elim (Bool-cases (ltb (length t) max)) [
  | inl e ↦ rw (take-all max t (ground (arith, e))) (
      ap (λ r. r.1) (write-room max t p (ground (arith, e)))
      ∙ ap (holding max) (sym (take-append_past max t p (ground (arith, e)))))
  | inr e ↦
      ap (λ r. r.1) (write-full max (take max t) p (length-take max t (ground (arith, e))))
      ∙ ap (holding max) (sym (take-append_inside max t p (ground (arith, e))))
]

-- a write that reports less than it was given has reached the limit
write-short :
    (max : ℕ) (t p : Text) → ((write (given max t) p).0 == length p) ≡ false → max ≤ length (t ++ p)
write-short max t p short = elim (Bool-cases (leb max (length (t ++ p)))) [
  | inl e ↦ ground (arith, e)
  | inr e ↦
      let below : length (t ++ p) < max = ground (arith, e) in
      let whole : take (max - length t) p ≡ p =
        take-all (max - length t) p (omega (arith, length-append t p)) in
      let made : (write (given max t) p).0 ≡ length p =
        rw (take-all max t (omega (arith, length-append t p))) (
          ap (λ r. r.0) (write-room max t p (omega (arith, length-append t p)))
          ∙ ap length whole) in
      absurd (ground (arith, short, made))
]

write-crossing :
    (max : ℕ) (t p : Text)
    → length t < max
    → max < length (t ++ p)
    → ((write (given max t) p).0 == length p) ≡ false
write-crossing max t p below past =
    rw (take-all max t (omega arith), write-room max t p below)
      (ground (
        arith,
        length-take (max - length t) p (omega (arith, length-append t p)),
        length-append t p,
      ))

copy-given :
    (max : ℕ) (t : Text) (pieces : List Text)
    → (copy (given max t) pieces).1 ≡ given max (t ++ join pieces)
unfolding copy
copy-given max t [] = ap (given max) (sym (append-nil t))
copy-given max t (p ∷ pieces) = elim (Bool-cases ((write (given max t) p).0 == length p)) [
  | inl e ↦
      rw (e, write-given max t p)
        (copy-given max (t ++ p) pieces ∙ ap (given max) (append_assoc t p (join pieces)))
  | inr e ↦
      rw (e, write-given max t p)
        (ap (holding max) (
          sym (take-append_inside max (t ++ p) (join pieces) (write-short max t p e))
          ∙ ap (take max) (append_assoc t p (join pieces))))
]

copy-crossing :
    (max : ℕ) (t : Text) (before : List Text) (p : Text) (after : List Text)
    → length (t ++ join before) < max
    → max < length ((t ++ join before) ++ p)
    → (copy (given max t) (before ++ (p ∷ after))).0 ≡ false
unfolding copy
copy-crossing max t [] p after below past =
    let crossing =
      write-crossing max t p (omega (arith, below, ap length (append-nil t)))
        (omega (arith, past, ap (λ r. length (r ++ p)) (append-nil t))) in
    rw crossing refl
copy-crossing max t (q ∷ before) p after below past =
    elim (Bool-cases ((write (given max t) q).0 == length q)) [
      | inr e ↦ rw e refl
      | inl e ↦
          rw (e, write-given max t q)
            (copy-crossing max (t ++ q) before p after (rw (append_assoc t q (join before)) below)
              (rw (append_assoc t q (join before)) past))
    ]

given-nil : (max : ℕ) → given max [] ≡ new_limit_writer max
given-nil max = ap (holding max) (take-nil max)

copy-new :
    (max : ℕ) (pieces : List Text)
    → (copy (new_limit_writer max) pieces).1.content ≡ take max (join pieces)
copy-new max pieces = rw⁻¹ (given-nil max) (ap (λ l. l.content) (copy-given max [] pieces))

copy-new_crossing :
    (max : ℕ) (before : List Text) (p : Text) (after : List Text)
    → length (join before) < max
    → max < length (join before ++ p)
    → (copy (new_limit_writer max) (before ++ (p ∷ after))).0 ≡ false
copy-new_crossing max before p after below past =
    rw⁻¹ (given-nil max) (copy-crossing max [] before p after below past)

-- An allowed command's result holds, of each stream, the first bytes that it wrote, as many as the limit
-- allows, however the output comes in pieces and however the command ends.
pub execute-takes :
    (base : Text → Text) (s : Sandbox) (command : Text) (out_pieces err_pieces : List Text)
    (ended : Ended)
    → is_allowed base command ≡ true
    → ((execute base s command out_pieces err_pieces ended).stdout
        ≡ take s.max_output (join out_pieces))
      × ((execute base s command out_pieces err_pieces ended).stderr
          ≡ take s.max_output (join err_pieces))
unfolding execute
execute-takes base s command out_pieces err_pieces ended allowed =
    rw (allowed) (copy-new s.max_output out_pieces, copy-new s.max_output err_pieces)

-- An allowed command that exits with 0 is reported as a failure with the exit code -1, where a piece of
-- its output starts below the limit and ends past it.
pub execute-loses_success :
    (base : Text → Text) (s : Sandbox) (command : Text) (before : List Text) (p : Text)
    (after err_pieces : List Text)
    → is_allowed base command ≡ true
    → length (join before) < s.max_output
    → s.max_output < length (join before ++ p)
    → ((execute base s command (before ++ (p ∷ after)) err_pieces (exited 0)).exit_code ≡ minus_one)
      × ((execute base s command (before ++ (p ∷ after)) err_pieces (exited 0)).has_error ≡ true)
unfolding execute
execute-loses_success base s command before p after err_pieces allowed below past =
    rw (allowed, copy-new_crossing s.max_output before p after below past) (refl, refl)
