-- ===== src/Examples/Pending.antt =====
-- Witnesses and runs for the queue of pending calls.
use janet_sdbus.Base.{
  ◌≡◌, refl, Option, none, some, [], ◌∷◌, Outcome, ok, ◌>>◌, ◌==◌, if◌then◌else◌, arith,
}
use janet_sdbus.Pending.{
  Ptr, null, AsyncPending, AsyncError, call, Heap, Pendings, queue_pending, dequeue_pending, write,
  load, update,
}
use janet_sdbus.Pending.Links.{Linked}
use janet_sdbus.Pending.Queue.{IsQueue, Leaves, queue_pending-cons}
use janet_sdbus.Pending.Dequeue.{dequeue_pending-remove}
use janet_sdbus.Pending.Stale.{queue_pending-lost}

abbrev pub pending : Ptr → Ptr → AsyncPending
pending prev next = record { slot = 7; chan = 8; next = next; prev = prev; kind = call }

-- The queue 2, 1; the node 3 is allocated, and 4 was the first before 1 when it was dequeued.
abbrev pub nodes : Heap
nodes a =
    if a == 1
    then some (pending 2 null)
    else if a == 2
    then some (pending null 1)
    else if a == 3
    then some (pending null null)
    else if a == 4
    then some (pending null 1)
    else none

abbrev pub two : Pendings
two = record { node = nodes; head = 2 }

node_1 : Linked nodes 1 2 null
node_1 = record { here = pending 2 null; holds = refl; prev = refl; next = refl }

node_2 : Linked nodes 2 null 1
node_2 = record { here = pending null 1; holds = refl; prev = refl; next = refl }

node_4 : Linked nodes 4 null 1
node_4 = record { here = pending null 1; holds = refl; prev = refl; next = refl }

pub two-IsQueue : IsQueue two (2 ∷ 1 ∷ [])
two-IsQueue = record {
  head = refl;
  links = (omega arith, refl, node_2, (omega arith, refl, node_1, tt));
}

queue_pending-cons_example : Leaves (3 ∷ 2 ∷ 1 ∷ []) (3 ∷ 2 ∷ 1 ∷ []) nodes (queue_pending 3 two)
queue_pending-cons_example = queue_pending-cons 3 two-IsQueue (omega arith) refl refl

dequeue_pending-remove_example : Leaves (2 ∷ []) (2 ∷ []) nodes (dequeue_pending 1 two)
dequeue_pending-remove_example = dequeue_pending-remove two (2 ∷ []) 1 [] two-IsQueue

queue_pending-lost_example :
    Leaves
      (1 ∷ [])
      (3 ∷ 1 ∷ [])
      nodes
      ((dequeue_pending 2 >> (queue_pending 3 >> dequeue_pending 2)) two)
queue_pending-lost_example = queue_pending-lost two 2 3 (1 ∷ []) two-IsQueue (omega arith) refl refl

abbrev head_after : Outcome AsyncError Pendings (Unit {0}) → Option Ptr
head_after (ok _ s) = some s.head
head_after _ = none

queue_pending_runs : head_after (queue_pending 3 two) ≡ some 3
unfolding queue_pending write load update
queue_pending_runs = refl

dequeue_pending_runs : head_after (dequeue_pending 2 two) ≡ some 1
unfolding dequeue_pending write load update
dequeue_pending_runs = refl
