-- ===== src/Dispatcher/Pipeline/Locks.antt =====
-- The in-flight locks as a set of keys.
use matea.Base.{true, false, not, List, [], ◌∷◌, ◌≡◌, refl, arith, eq_iff, any, select}
use matea.Dispatcher.State.{LockKey, key_eq, is_locked, lock, unlock}

pub key_eq_refl : (k : LockKey) → key_eq k k ≡ true
key_eq_refl (r, n) = ground (arith, eq_iff r r)

select-unlocked :
    (k : LockKey) (locks : List LockKey)
    → any (λ j. key_eq j k) locks ≡ false
    → select (λ j. not (key_eq j k)) locks ≡ locks
select-unlocked k [] h = refl
select-unlocked k (j ∷ locks) h = ground (arith, select-unlocked k locks)

-- A lock that is taken and given back leaves the locks as they were.
pub unlock-lock :
    (k : LockKey) (locks : List LockKey)
    → is_locked k locks ≡ false
    → unlock k (lock k locks) ≡ locks
unfolding is_locked lock unlock
unlock-lock k locks h = ground (arith, key_eq_refl k, select-unlocked k locks)

-- A key is not locked after it has been unlocked.
pub is_locked-unlock : (k : LockKey) (locks : List LockKey) → is_locked k (unlock k locks) ≡ false
unfolding is_locked unlock
is_locked-unlock k [] = refl
is_locked-unlock k (j ∷ locks) = ground (arith, is_locked-unlock k locks)
