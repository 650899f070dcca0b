-- ===== src/Dispatcher/Restart/Resumes.antt =====
-- The loop of ReattachHubHandles (internal/dispatcher/executor.go) as one function on the rows of the tasks.
use matea.Base.{
  ℕ, Bool, true, false, ◌&&◌, none, some, List, [], ◌∷◌, ◌≡◌, ◌≢◌, refl, sym, ◌∙◌, ap, arith, any,
  map, find_first, All, ◌==◌, if◌then◌else◌, Bool-cases, Option-cases, inl, inr,
}
use matea.Store.Types.{Task, TaskStatus, status_eq}
use matea.Store.Tasks.{get_task, update_task_status}
use matea.Store.Handles.{HubHandle}
use matea.Dispatcher.Restart.{Restart, reattach_all, reattach_found}

-- no row has the id
abbrev pub HasNoTask : ℕ → List Task → Type 0
HasNoTask id rows = All (λ (r : Task). r.id ≢ id) rows

-- the primary key of the table
abbrev pub HasDistinctTasks : List Task → Type 0
HasDistinctTasks [] = Unit {0}
HasDistinctTasks (r ∷ rows) = HasNoTask r.id rows × HasDistinctTasks rows

abbrev pub is_running : Task → Bool
is_running r = status_eq r.status TaskStatus.running

-- a row that waits for its run to be taken up again
abbrev pub waiting : Task → Task
waiting r = record r { status = TaskStatus.pending; result = ""; error = "" }

-- one turn of the loop, as a function of the rows
abbrev pub resumed : (Task → Bool) → Task → Task
resumed p r = if p r && is_running r then waiting r else r

abbrev pub set_pending : ℕ → Task → Task
set_pending id r = if r.id == id then waiting r else r

no_task_same : (id : ℕ) (rows : List Task) → HasNoTask id rows → map (set_pending id) rows ≡ rows
no_task_same id [] h = refl
no_task_same id (r ∷ rows) h = ground (arith, no_task_same id rows h.1)

no_task_resumed :
    (id : ℕ) (rows : List Task) → HasNoTask id rows → map (resumed (λ r. r.id == id)) rows ≡ rows
no_task_resumed id [] h = refl
no_task_resumed id (r ∷ rows) h = ground (arith, no_task_resumed id rows h.1)

-- the row with the id runs: it is set to pending
found_running :
    (id : ℕ) (rows : List Task) (row : Task)
    → HasDistinctTasks rows
    → find_first (λ (r : Task). r.id == id) rows ≡ some row
    → is_running row ≡ true
    → map (set_pending id) rows ≡ map (resumed (λ r. r.id == id)) rows
found_running id [] row d h live = refl
found_running id (r ∷ rows) row d h live = elim (Bool-cases (r.id == id)) [
  | inl e ↦
      let same : some r ≡ some row = rw e at h in
      let here : r.id ≡ id = ground (arith, e) in
      ground
        (arith, no_task_same id rows (rw (← here) d.0), no_task_resumed id rows (rw (← here) d.0))
  | inr e ↦ ground (arith, found_running id rows row d.1 (rw e at h) live)
]

none_found :
    (id : ℕ) (rows : List Task)
    → find_first (λ (r : Task). r.id == id) rows ≡ none
    → map (resumed (λ r. r.id == id)) rows ≡ rows
none_found id [] h = refl
none_found id (r ∷ rows) h = elim (Bool-cases (r.id == id)) [
  | inl e ↦ let no_path : some r ≡ none = rw e at h in cc
  | inr e ↦ ground (arith, none_found id rows (rw e at h))
]

found_idle :
    (id : ℕ) (rows : List Task) (row : Task)
    → HasDistinctTasks rows
    → find_first (λ (r : Task). r.id == id) rows ≡ some row
    → is_running row ≡ false
    → map (resumed (λ r. r.id == id)) rows ≡ rows
found_idle id [] row d h idle = refl
found_idle id (r ∷ rows) row d h idle = elim (Bool-cases (r.id == id)) [
  | inl e ↦
      let same : some r ≡ some row = rw e at h in
      let here : r.id ≡ id = ground (arith, e) in
      ground (arith, no_task_resumed id rows (rw (← here) d.0))
  | inr e ↦ ground (arith, found_idle id rows row d.1 (rw e at h) idle)
]

resumed-HasNoTask :
    (p : Task → Bool) (id : ℕ) (rows : List Task)
    → HasNoTask id rows
    → HasNoTask id (map (resumed p) rows)
resumed-HasNoTask p id [] h = tt
resumed-HasNoTask p id (r ∷ rows) h =
    (λ e. h.0 (ground (arith, e)), resumed-HasNoTask p id rows h.1)

pub resumed-HasDistinctTasks :
    (p : Task → Bool) (rows : List Task)
    → HasDistinctTasks rows
    → HasDistinctTasks (map (resumed p) rows)
resumed-HasDistinctTasks p [] d = tt
resumed-HasDistinctTasks p (r ∷ rows) d =
    let same : (resumed p r).id ≡ r.id = ground arith in
    (rw same (resumed-HasNoTask p r.id rows d.0), resumed-HasDistinctTasks p rows d.1)

abbrev pub named_by : List HubHandle → Task → Bool
named_by hs r = any (λ (h : HubHandle). h.task_id == r.id) hs

named_again :
    (h : HubHandle) (hs : List HubHandle) (rows : List Task)
    → map (resumed (named_by hs)) (map (resumed (λ r. r.id == h.task_id)) rows)
      ≡ map (resumed (named_by (h ∷ hs))) rows
named_again h hs [] = refl
named_again h hs (r ∷ rows) = ground (arith, named_again h hs rows)

none_named : (rows : List Task) → map (resumed (named_by [])) rows ≡ rows
none_named [] = refl
none_named (r ∷ rows) = ground (arith, none_named rows)

module _ (now size : ℕ) where
  turn-rows :
      (id : ℕ) (s : Restart)
      → HasDistinctTasks s.tasks.rows
      → (reattach_found now size id (get_task id s.tasks) s).tasks.rows
        ≡ map (resumed (λ r. r.id == id)) s.tasks.rows
  unfolding get_task update_task_status
  turn-rows id s d = elim (Option-cases (get_task id s.tasks)) [
    | inl e ↦ rw e (sym (none_found id s.tasks.rows e))
    | inr (row, e) ↦ elim (Bool-cases (is_running row)) [
      | inl live ↦ rw e (ground (arith, found_running id s.tasks.rows row d e live))
      | inr idle ↦ rw e (ground (arith, found_idle id s.tasks.rows row d e idle))
    ]
  ]

  pub loop-rows :
      (hs : List HubHandle) (s : Restart)
      → HasDistinctTasks s.tasks.rows
      → (reattach_all now size hs s).tasks.rows ≡ map (resumed (named_by hs)) s.tasks.rows
  unfolding reattach_all
  loop-rows [] s d = sym (none_named s.tasks.rows)
  loop-rows (h ∷ hs) s d =
      let s' : Restart = reattach_found now size h.task_id (get_task h.task_id s.tasks) s in
      let step : s'.tasks.rows ≡ map (resumed (λ r. r.id == h.task_id)) s.tasks.rows =
        turn-rows h.task_id s d in
      let d' : HasDistinctTasks s'.tasks.rows =
        rw step (resumed-HasDistinctTasks (λ r. r.id == h.task_id) s.tasks.rows d) in
      loop-rows hs s' d'
      ∙ ap (λ rows. map (resumed (named_by hs)) rows) step
      ∙ named_again h hs s.tasks.rows
