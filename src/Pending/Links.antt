-- ===== src/Pending/Links.antt =====
-- Doubly linked lists of pending nodes: what it means for the heap to hold the nodes of a list, and
-- what a write to one of them changes.
use janet_sdbus.Base.{◌≡◌, ◌≢◌, refl, Bool, false, ◌||◌, some, List, [], ◌∷◌, ◌++◌, arith, ◌==◌}
use janet_sdbus.Pending.{Ptr, null, AsyncPending, Heap, update, to_next, to_prev}

abbrev pub has : Ptr → List Ptr → Bool
has a [] = false
has a (x ∷ xs) = (a == x) || has a xs

abbrev pub first : List Ptr → Ptr
first [] = null
first (x ∷ _) = x

-- The last of `xs`, or `p` where there is none.
abbrev pub last : Ptr → List Ptr → Ptr
last p [] = p
last p (x ∷ xs) = last x xs

-- `x` is a node between `p` and `q`.
pub record Linked (h : Heap) (x p q : Ptr) : Type 0 where
  pub here : AsyncPending
  pub holds : h x ≡ some here
  pub prev : here.prev ≡ p
  pub next : here.next ≡ q

-- The heap holds the nodes of the list, each linked to its neighbours; `p` stands before the first.
abbrev pub Links : Heap → Ptr → List Ptr → Type 0
Links h p [] = Unit
Links h p (x ∷ xs) = (x ≢ null) × (has x xs ≡ false) × Linked h x p (first xs) × Links h x xs

module _ (h : Heap) (f : AsyncPending → AsyncPending) where
  pub Linked-update :
      {x p q : Ptr} (a : Ptr) → (x == a) ≡ false → Linked h x p q → Linked (update h a f) x p q
  unfolding update
  Linked-update a ne l = record {
    here = l.here;
    holds = rw (ne, l.holds);
    prev = l.prev;
    next = l.next;
  }

  -- A write outside the list does not change it.
  pub Links-update :
      (p a : Ptr) (xs : List Ptr) → has a xs ≡ false → Links h p xs → Links (update h a f) p xs
  Links-update p a [] out l = tt
  Links-update p a (x ∷ xs) out (ne, away, link, rest) =
      (ne, away, Linked-update a (ground arith) link, Links-update x a xs (ground arith) rest)

-- Writes to the links of a node.
pub Linked-to_next :
    {h : Heap} {x p q : Ptr} (r : Ptr) → Linked h x p q → Linked (update h x (to_next r)) x p r
unfolding update
Linked-to_next r l = record {
  here = record (l.here) { next = r };
  holds = ground arith;
  prev = l.prev;
  next = refl;
}

pub Linked-to_prev :
    {h : Heap} {x p q : Ptr} (r : Ptr) → Linked h x p q → Linked (update h x (to_prev r)) x r q
unfolding update
Linked-to_prev r l = record {
  here = record (l.here) { prev = r };
  holds = ground arith;
  prev = refl;
  next = l.next;
}

-- The node inside a list, with its neighbours.
pub Links-mid :
    {h : Heap} (p : Ptr) (ys : List Ptr) (x : Ptr) (zs : List Ptr)
    → Links h p (ys ++ x ∷ zs)
    → Linked h x (last p ys) (first zs)
Links-mid p [] x zs (ne, away, link, rest) = link
Links-mid p (y ∷ ys) x zs (ne, away, link, rest) = Links-mid y ys x zs rest
