-- ===== src/Dispatcher/Serial/Exclusive.antt =====
-- In serial mode no two workers run tasks of one agent (internal/dispatcher/executor.go).
use matea.Base.{
  ℕ, ◌≤◌, ◌+◌, Bool, true, false, not, ◌&&◌, List, [], ◌∷◌, ◌++◌, ◌≡◌, refl, arith, select, length,
  ◌==◌, if◌then◌else◌,
}
use matea.Store.Types.{Task}
use matea.Store.Tasks.{Tasks}
use matea.Dispatcher.Serial.{Busy, is_busy, try_acquire_agent_slot, release_agent_slot}

-- The slots and the tasks that the workers are running. A worker takes a task from the channel, tries
-- for its agent's slot, and gives the slot back when the task has ended; what the table holds at each
-- try, and whether the query fails, is left open.
pub record Workers : Type 0 where
  pub busy : Busy
  pub held : List Task

pub data Turn : Workers → Workers → Type 0 where
  takes :
      (w : Workers) (fails : Bool) (task : Task) (t : Tasks) (busy : Busy)
      → try_acquire_agent_slot true fails task t w.busy ≡ (true, busy)
      → Turn w (record { busy = busy; held = task ∷ w.held })
  defers :
      (w : Workers) (fails : Bool) (task : Task) (t : Tasks) (busy : Busy)
      → try_acquire_agent_slot true fails task t w.busy ≡ (false, busy)
      → Turn w (record w { busy = busy })
  ends :
      (w : Workers) (before : List Task) (task : Task) (after : List Task)
      → w.held ≡ before ++ task ∷ after
      → Turn w
          (record { busy = release_agent_slot true task.agent_id w.busy; held = before ++ after })

pub data Turns (w : Workers) : Workers → Type 0 where
  here : Turns w w
  next : {u v : Workers} → Turns w u → Turn u v → Turns w v

abbrev pub held_count : ℕ → List Task → ℕ
held_count agent_id held = length (select (λ (r : Task). r.agent_id == agent_id) held)

-- an agent's tasks are run one at a time, each under the agent's mark
pub record IsExclusive (w : Workers) : Type 0 where
  pub one : (a : ℕ) → held_count a w.held ≤ (if is_busy a w.busy then 1 else 0)

held_count-middle :
    (a : ℕ) (before : List Task) (task : Task) (after : List Task)
    → held_count a (before ++ task ∷ after)
      ≡ held_count a (before ++ after) + (if task.agent_id == a then 1 else 0)
held_count-middle a [] task after = ground arith
held_count-middle a (r ∷ before) task after = ground (arith, held_count-middle a before task after)

is_busy-released :
    (a b : ℕ) (busy : Busy)
    → is_busy a (select (λ (c : ℕ). not (c == b)) busy) ≡ (is_busy a busy && not (a == b))
is_busy-released a b [] = refl
is_busy-released a b (c ∷ busy) = ground (arith, is_busy-released a b busy)

Turn-IsExclusive : {w v : Workers} → Turn w v → IsExclusive w → IsExclusive v
unfolding try_acquire_agent_slot release_agent_slot
Turn-IsExclusive (takes w fails task t busy e) v = record { one = λ a. ground (arith, v.one a) }
Turn-IsExclusive (defers w fails task t busy e) v = record { one = λ a. ground (arith, v.one a) }
Turn-IsExclusive (ends w before task after e) v = record {
  one = λ a.
      let counted : held_count a w.held
          ≡ held_count a (before ++ after) + (if task.agent_id == a then 1 else 0) =
        rw e (held_count-middle a before task after) in
      ground (arith, v.one a, is_busy-released a task.agent_id w.busy, counted);
}

-- With serial_queue set, from idle workers on, whatever the table holds and whatever queries fail, no two
-- tasks that the workers hold at one time are of one agent, and an agent whose task is held is marked.
pub Turns-IsExclusive : {w : Workers} → Turns (record { busy = []; held = [] }) w → IsExclusive w
Turns-IsExclusive here = record { one = λ a. omega arith }
Turns-IsExclusive (next r m) = Turn-IsExclusive m (Turns-IsExclusive r)
