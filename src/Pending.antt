-- ===== src/Pending.antt =====
-- The queue of pending calls and subscriptions in src/async.c: `AsyncPending` nodes, doubly linked
-- through the heap, with `conn->queue` as the head. A node that `janet_free` has released is `none`,
-- and reading or writing through it, or through NULL, is a fault.
pub mod Links
pub mod Queue
pub mod Relink
pub mod Dequeue
pub mod Stale
pub mod Again
pub mod Contents
use Prim.Native.String.{String}
use janet_sdbus.Base.{
  ℕ, Bool, Option, none, some, Cmd, ok, fault, pure, ◌>>=◌, ◌>>◌, ◌==◌, if◌then◌else◌, ℤ,
}

abbrev pub Ptr : Type 0
Ptr = ℕ

abbrev pub null : Ptr
null = 0

-- The enumeration of `AsyncPending`.
pub data Kind : Type 0 where
  call match : Kind

pub record AsyncPending : Type 0 where
  pub slot : Ptr
  pub chan : ℕ
  pub next : Ptr
  pub prev : Ptr
  pub kind : Kind

abbrev pub Heap : Type 0
Heap = Ptr → Option AsyncPending

-- The nodes, and `conn->queue`.
pub record Pendings : Type 0 where
  pub node : Heap
  pub head : Ptr

-- A write to one field of the node at `p`.
abbrev pub at_node : (AsyncPending → AsyncPending) → Option AsyncPending → Option AsyncPending
at_node f none = none
at_node f (some n) = some (f n)

unfoldable pub update : Heap → Ptr → (AsyncPending → AsyncPending) → Heap
update h p f a = if a == p then at_node f (h a) else h a

abbrev pub to_next : Ptr → AsyncPending → AsyncPending
to_next q n = record n { next = q }

abbrev pub to_prev : Ptr → AsyncPending → AsyncPending
to_prev q n = record n { prev = q }

-- The panics of src/async.c and src/call.c: a call of libsystemd or of the kernel that failed, with
-- the function's name and the error number.
pub data AsyncError : Type 0 where
  failed_to_call : String → ℤ → AsyncError
  timer_closed : AsyncError
  timerfd_settime_failed : AsyncError
  channel_closed : AsyncError

abbrev pub Queue : Type 0 → Type 0
Queue A = Cmd AsyncError Pendings A

unfoldable pub load : Ptr → Queue AsyncPending
load p s = if p == null then fault else elim (s.node p) [ none ↦ fault | some n ↦ ok n s ]

unfoldable pub write : Ptr → (AsyncPending → AsyncPending) → Queue (Unit {0})
unfolding load
write p f = do _ ← load p; λ s. ok tt (record s { node = update s.node p f })

unfoldable pub get_head : Queue Ptr
get_head s = ok s.head s

unfoldable pub set_head : Ptr → Queue (Unit {0})
set_head p s = ok tt (record s { head = p })

unfoldable pub queue_pending : Ptr → Queue (Unit {0})
unfolding get_head set_head
queue_pending pending = do
  write pending (to_prev null)
  first ← get_head
  write pending (to_next first)
  (if first == null then pure tt else write first (to_prev pending))
  set_head pending

-- Each `pending->...` is a load of its own.
unfoldable pub unlink_pending : Ptr → Queue (Unit {0})
unfolding set_head
unlink_pending pending = do
  n ← load pending
  (if n.prev == null then set_head n.next else write n.prev (to_next n.next))
  n' ← load pending
  if n'.next == null then pure tt else write n'.next (to_prev n'.prev)

unfoldable pub dequeue_pending : Ptr → Queue (Unit {0})
unfolding unlink_pending get_head
dequeue_pending pending = do
  first ← get_head
  if first == null then pure tt else unlink_pending pending
