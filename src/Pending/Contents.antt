-- ===== src/Pending/Contents.antt =====
-- What the queue's operations leave alone: which nodes are allocated, and the slot, the channel and
-- the kind of each.
use janet_sdbus.Base.{
  ℕ, ◌≡◌, refl, Bool, true, false, Option, none, some, Outcome, ok, fault, and_then, ◌∙◌, ◌==◌,
  if◌then◌else◌, Bool-cases, Option-cases, inl, inr,
}
use janet_sdbus.Pending.{
  Ptr, null, Kind, AsyncPending, Heap, Pendings, AsyncError, Queue, update, to_next, to_prev, load,
  write, get_head, set_head, queue_pending, unlink_pending, dequeue_pending,
}

-- The slot, the channel and the kind.
abbrev pub contents : Option AsyncPending → Option (Ptr × (ℕ × Kind))
contents none = none
contents (some n) = some (n.slot, (n.chan, n.kind))

-- A run that, if it ends, has kept the contents of every node of the heap `h`.
pub data Keeps {A : Type 0} (h : Heap) : Outcome AsyncError Pendings A → Type 0 where
  keeps :
      {a : A} {s : Pendings} → ((p : Ptr) → contents (s.node p) ≡ contents (h p)) → Keeps h (ok a s)
  faults : Keeps h fault

-- Seen from an earlier heap.
Keeps-mono :
    {A : Type 0} {g h : Heap} {o : Outcome AsyncError Pendings A}
    → Keeps g o
    → ((p : Ptr) → contents (g p) ≡ contents (h p))
    → Keeps h o
Keeps-mono (keeps same') same = keeps (λ p. same' p ∙ same p)
Keeps-mono faults same = faults

Keeps-bind :
    {A B : Type 0} {h : Heap} {o : Outcome AsyncError Pendings A} (k : A → Queue B)
    → Keeps h o
    → ((a : A) (s : Pendings) → Keeps s.node (k a s))
    → Keeps h (and_then o k)
Keeps-bind k faults go = faults
Keeps-bind k (keeps {a} {s} same) go = Keeps-mono (go a s) same

Keeps-if :
    {A : Type 0} {h : Heap} (b : Bool) (m n : Queue A) (s : Pendings)
    → Keeps h (m s)
    → Keeps h (n s)
    → Keeps h ((if b then m else n) s)
Keeps-if true m n s km kn = km
Keeps-if false m n s km kn = kn

Keeps-load : (p : Ptr) (s : Pendings) → Keeps s.node (load p s)
unfolding load
Keeps-load p s = elim (Bool-cases (p == null)) [
  | inl e ↦ rw e faults
  | inr e ↦ elim (Option-cases (s.node p)) [
    | inl gone ↦ rw (e, gone) faults
    | inr (n, here) ↦ rw (e, here) (keeps (λ a. refl))
  ]
]

-- A write to `next` or `prev`.
contents-update :
    (h : Heap) (p : Ptr) (f : AsyncPending → AsyncPending) (a : Ptr)
    → ((n : AsyncPending) → contents (some (f n)) ≡ contents (some n))
    → contents (update h p f a) ≡ contents (h a)
unfolding update
contents-update h p f a k = elim (Bool-cases (a == p)) [
  | inl e ↦ elim (Option-cases (h a)) [
    | inl gone ↦ rw (e, gone) refl
    | inr (n, here) ↦ rw (e, here) (k n)
  ]
  | inr e ↦ rw e refl
]

Keeps-write :
    (p : Ptr) (f : AsyncPending → AsyncPending) (s : Pendings)
    → ((n : AsyncPending) → contents (some (f n)) ≡ contents (some n))
    → Keeps s.node (write p f s)
unfolding write
Keeps-write p f s k =
    Keeps-bind _ (Keeps-load p s) λ n t. keeps (λ a. contents-update t.node p f a k)

-- Whatever the state, a run of `queue_pending` that ends has kept the slot, the channel and the kind
-- of every node, and has neither allocated nor freed one.
pub queue_pending-Keeps : (p : Ptr) (s : Pendings) → Keeps s.node (queue_pending p s)
unfolding queue_pending get_head set_head
queue_pending-Keeps p s = Keeps-bind _ (Keeps-write p (to_prev null) s (λ n. refl)) λ _ s₁.
    Keeps-bind _ (Keeps-write p (to_next s₁.head) s₁ (λ n. refl)) λ _ s₂.
      Keeps-bind _
        (Keeps-if (s₁.head == null) _ (write s₁.head (to_prev p)) s₂ (keeps (λ a. refl))
          (Keeps-write s₁.head (to_prev p) s₂ (λ n. refl)))
        λ _ s₃. keeps (λ a. refl)

unlink_pending-Keeps : (p : Ptr) (s : Pendings) → Keeps s.node (unlink_pending p s)
unfolding unlink_pending set_head
unlink_pending-Keeps p s = Keeps-bind _ (Keeps-load p s) λ n s₁.
    Keeps-bind _
      (Keeps-if (n.prev == null) (set_head n.next) (write n.prev (to_next n.next)) s₁
        (keeps (λ a. refl)) (Keeps-write n.prev (to_next n.next) s₁ (λ m. refl)))
      λ _ s₂. Keeps-bind _ (Keeps-load p s₂) λ n' s₃.
        Keeps-if (n'.next == null) _ (write n'.next (to_prev n'.prev)) s₃ (keeps (λ a. refl))
          (Keeps-write n'.next (to_prev n'.prev) s₃ (λ m. refl))

-- The same of `dequeue_pending`.
pub dequeue_pending-Keeps : (p : Ptr) (s : Pendings) → Keeps s.node (dequeue_pending p s)
unfolding dequeue_pending get_head
dequeue_pending-Keeps p s =
    Keeps-if (s.head == null) _ (unlink_pending p) s (keeps (λ a. refl)) (unlink_pending-Keeps p s)
