-- ===== src/Agents/DiffPolicy/Verdicts.antt =====
-- What the policy of paths lets through (internal/agents/gitsync_diffpolicy.go).
use matea.Base.{
  is_empty, Text, codes, Bool, true, not, ◌&&◌, ◌||◌, List, [], ◌∷◌, ◌++◌, ◌≡◌, refl, sym, ap,
  arith, select, has_prefix, has_prefix-append,
}
use mathlib.Core.List.{append_assoc}
use matea.Agents.DiffPolicy.{
  DiffPolicy, default_denied_diff_patterns, is_recursive, drop_last, diff_pattern_matches,
  is_matched, violations,
}

-- the pattern for all that lies under a directory
abbrev pub under : Text → Text
under directory = directory ++ codes "/*"

is_recursive-under : (d : Text) → is_recursive (under d) ≡ true
unfolding is_recursive
is_recursive-under [] = refl
is_recursive-under (c ∷ []) = refl
is_recursive-under (c ∷ e ∷ []) = refl
is_recursive-under (c ∷ e ∷ f ∷ d) = is_recursive-under (e ∷ f ∷ d)

drop_last-under : (d : Text) → drop_last (under d) ≡ d ++ codes "/"
drop_last-under [] = refl
drop_last-under (c ∷ []) = refl
drop_last-under (c ∷ e ∷ d) = ap (λ t. c ∷ t) (drop_last-under (e ∷ d))

module _ (matches : Text → Text → Bool) (base : Text → Text) where
  -- whether a changed path is one that must not be touched, said without the order of the tests
  abbrev pub is_forbidden : DiffPolicy → Text → Bool
  is_forbidden policy p =
      not (is_empty p)
      && (is_matched matches base (default_denied_diff_patterns ++ policy.denied) p
          || not (is_empty policy.allowed) && not (is_matched matches base policy.allowed p))

  is_matched-append :
      (xs ys : List Text) (p : Text)
      → is_matched matches base (xs ++ ys) p
        ≡ (is_matched matches base xs p || is_matched matches base ys p)
  is_matched-append [] ys p = refl
  is_matched-append (x ∷ xs) ys p = ground (arith, is_matched-append xs ys p)

  -- The violations are the changed paths, in their order, that match a built-in or a configured denied
  -- pattern, or that match no allowed one where any is configured. Deny wins, and no setting can lift a
  -- built-in pattern.
  pub violations-eq-select :
      (policy : DiffPolicy) (changed : List Text)
      → violations matches base policy changed ≡ select (is_forbidden policy) changed
  unfolding violations
  violations-eq-select policy [] = refl
  violations-eq-select policy (p ∷ changed) = ground (
    arith,
    is_matched-append default_denied_diff_patterns policy.denied p,
    violations-eq-select policy changed,
  )

  -- A directory's pattern matches everything below it, at any depth, whatever path.Match says of it.
  pub diff_pattern_matches-under :
      (directory rest : Text)
      → diff_pattern_matches matches base (under directory) (directory ++ (codes "/" ++ rest))
        ≡ true
  unfolding diff_pattern_matches
  diff_pattern_matches-under directory rest =
      let below : has_prefix (directory ++ (codes "/" ++ rest)) (drop_last (under directory))
          ≡ true =
        rw (drop_last-under directory) (
          rw (sym (append_assoc directory (codes "/") rest))
            (has_prefix-append (directory ++ codes "/") rest)) in
      ground (arith, below, is_recursive-under directory)
