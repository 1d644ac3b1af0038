-- ===== src/Pending/Relink.antt =====
-- What `dequeue_pending` does to the links of the other nodes.
use janet_sdbus.Base.{◌≡◌, ◌≢◌, refl, false, List, [], ◌∷◌, ◌++◌, arith, ◌==◌}
use janet_sdbus.Pending.{Ptr, null, Heap, update, to_next, to_prev}
use janet_sdbus.Pending.Links.{
  has, last, Linked, Links, Links-update, Linked-to_next, Linked-to_prev, Linked-update,
}

pub has-remove :
    (a : Ptr) (ys : List Ptr) (x : Ptr) (zs : List Ptr)
    → has a (ys ++ x ∷ zs) ≡ false
    → has a (ys ++ zs) ≡ false
has-remove a [] x zs out = ground arith
has-remove a (y ∷ ys) x zs out = ground (arith, has-remove a ys x zs)

-- An address outside a list is neither the last of a part of it nor the node after that part.
pub ne-last :
    (a y : Ptr) (ys rest : List Ptr) → has a (y ∷ (ys ++ rest)) ≡ false → (a == last y ys) ≡ false
ne-last a y [] rest out = ground arith
ne-last a y (y' ∷ ys) rest out = ne-last a y' ys rest (ground arith)

pub has-drop : (a : Ptr) (ys zs : List Ptr) → has a (ys ++ zs) ≡ false → has a zs ≡ false
has-drop a [] zs out = out
has-drop a (y ∷ ys) zs out = has-drop a ys zs (ground arith)

-- The node before `x` and the node after it are linked to each other.
abbrev pub relinked : Heap → Ptr → List Ptr → Heap
relinked h l [] = update h l (to_next null)
relinked h l (z ∷ _) = update (update h l (to_next z)) z (to_prev l)

relinked-Linked :
    {h : Heap} {a p q : Ptr} (l : Ptr) (zs : List Ptr)
    → (a == l) ≡ false
    → has a zs ≡ false
    → Linked h a p q
    → Linked (relinked h l zs) a p q
relinked-Linked l [] ne out k = Linked-update _ _ l ne k
relinked-Linked l (z ∷ zs) ne out k = Linked-update _ _ z (ground arith) (Linked-update _ _ l ne k)

pub Links-relinked :
    {h : Heap} (q y : Ptr) (ys : List Ptr) (x : Ptr) (zs : List Ptr)
    → Links h q (y ∷ (ys ++ x ∷ zs))
    → Links (relinked h (last y ys) zs) q (y ∷ (ys ++ zs))
Links-relinked q y [] x [] (ney, outy, ly, (nex, outx, lx, rest)) =
    (ney, refl, Linked-to_next null ly, tt)
Links-relinked q y [] x (z ∷ zs) (ney, outy, ly, (nex, outx, lx, (nez, outz, lz, rest))) = (
  ney,
  ground arith,
  Linked-update _ _ z (ground arith) (Linked-to_next z ly),
  (
    nez,
    outz,
    Linked-to_prev y (Linked-update _ _ y (ground arith) lz),
    Links-update _ _ z z zs outz (Links-update _ _ z y zs (ground arith) rest),
  ),
)
Links-relinked q y (y' ∷ ys) x zs (ney, outy, ly, rest) = (
  ney,
  has-remove y (y' ∷ ys) x zs outy,
  relinked-Linked _ zs (ne-last y y' ys _ outy) (ground (arith, has-drop y (y' ∷ ys) (x ∷ zs))) ly,
  Links-relinked y y' ys x zs rest,
)

-- The node before `x`: it is there, it is another node, and it leads to `x`.
pub record Before (h : Heap) (l x : Ptr) (zs : List Ptr) : Type 0 where
  pub ne_null : l ≢ null
  pub apart : (x == l) ≡ false
  pub outside : has l zs ≡ false
  pub back : Ptr
  pub link : Linked h l back x

pub Links-Before :
    {h : Heap} (q y : Ptr) (ys : List Ptr) (x : Ptr) (zs : List Ptr)
    → Links h q (y ∷ (ys ++ x ∷ zs))
    → Before h (last y ys) x zs
Links-Before q y [] x zs (ney, outy, ly, rest) = record {
  ne_null = ney;
  apart = ground arith;
  outside = ground arith;
  back = q;
  link = ly;
}
Links-Before q y (y' ∷ ys) x zs (ney, outy, ly, rest) = Links-Before y y' ys x zs rest

-- The node after `x`, of which `x` is the predecessor.
pub Links-from :
    (h : Heap) (q : Ptr) (ys zs : List Ptr) → Links h q (ys ++ zs) → Links h (last q ys) zs
Links-from h q [] zs links = links
Links-from h q (y ∷ ys) zs (ney, outy, ly, rest) = Links-from h y ys zs rest
