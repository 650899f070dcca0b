-- ===== src/Dispatcher/Queue/Room.antt =====
-- What the channel of the queue takes (internal/dispatcher/queue.go).
use matea.Base.{
  take, take-zero, take-nil, take-suc, ℕ, ◌+◌, ◌-◌, ◌≤◌, ◌<◌, List, [], ◌∷◌, ◌++◌, ◌≡◌, sym, ◌∙◌,
  arith, length, length-append, ltb, Bool-cases, inl, inr, ap, append_assoc, append-nil,
}
use matea.Store.Types.{Task}
use matea.Store.Tasks.{Tasks, list_pending_tasks}
use matea.Dispatcher.Queue.{offer_all, load_pending}

offer_all-eq-take :
    (size : ℕ) (tasks channel : List Task)
    → length channel ≤ size
    → offer_all size tasks channel ≡ channel ++ take (size - length channel) tasks
unfolding offer_all
offer_all-eq-take size [] channel le =
    sym (ap (λ rest. channel ++ rest) (take-nil (size - length channel)) ∙ append-nil channel)
offer_all-eq-take size (task ∷ tasks) channel le = elim (Bool-cases (ltb (length channel) size)) [
  | inl e ↦
      let more = channel ++ task ∷ [] in
      let grown : length more ≡ length channel + 1 =
        omega (arith, length-append channel (task ∷ [])) in
      let room : length channel < size = ground (arith, e) in
      rw e (
        offer_all-eq-take size tasks more (omega (arith, grown, room))
        ∙ append_assoc channel (task ∷ []) (take (size - length more) tasks)
        ∙ ap (λ rest. channel ++ rest)
            (sym (
              take-suc (size - length channel) (size - length more) task tasks
                (omega (arith, grown, room)))))
  | inr e ↦
      let full : size - length channel ≡ 0 = ground (arith, e) in
      rw e (
        offer_all-eq-take size tasks channel le
        ∙ ap (λ rest. channel ++ rest)
            (take-zero (size - length channel) tasks full
              ∙ sym (take-zero (size - length channel) (task ∷ tasks) full)))
]

-- Loading fills the channel with the tasks that the table lists as pending, in their order, as far as
-- there is room, behind those that are in it already, and drops none of those.
pub load_pending-fills :
    (size : ℕ) (t : Tasks) (channel : List Task)
    → length channel ≤ size
    → load_pending size t channel ≡ channel ++ take (size - length channel) (list_pending_tasks t)
unfolding load_pending
load_pending-fills size t channel le = offer_all-eq-take size (list_pending_tasks t) channel le
