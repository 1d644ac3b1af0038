-- ===== src/Calls/Log.antt =====
-- What the channels are given when the connection ends, as a list.
use Prim.Native.String.{String}
use janet_sdbus.Pending.Contents.{contents}
use janet_sdbus.Base.{◌≡◌, false, Option, none, some, List, [], ◌∷◌, ◌++◌}
use janet_sdbus.Pending.{Ptr, AsyncPending, Heap}
use janet_sdbus.Calls.{BusLibrary, Status, Given, a_text, World}

abbrev pub slot_in : Option AsyncPending → List Ptr
slot_in none = []
slot_in (some n) = n.slot ∷ []

-- The slots of the nodes `xs`, in order.
abbrev pub slots : Heap → List Ptr → List Ptr
slots h [] = []
slots h (x ∷ xs) = slot_in (h x) ++ slots h xs

module _ ⦃w : BusLibrary⦄ where
  -- The node can be told: its channel is not closed, and its slot is there.
  abbrev pub CanTell : World → Option AsyncPending → Type 0
  CanTell s none = Unit
  CanTell s (some n) = (s.closed n.chan ≡ false) × (s.lost n.slot ≡ false)

  -- All of the nodes `xs` can be told.
  abbrev pub CanTellAll : World → List Ptr → Type 0
  CanTellAll s [] = Unit
  CanTellAll s (x ∷ xs) = CanTell s (s.pendings.node x) × CanTellAll s xs

  CanTell-contents :
      (s t : World) (n m : Option AsyncPending)
      → t.closed ≡ s.closed
      → t.lost ≡ s.lost
      → contents m ≡ contents n
      → CanTell s n
      → CanTell t m
  CanTell-contents s t n none e e' same h = tt
  CanTell-contents s t none (some m) e e' same h = absurd cc
  CanTell-contents s t (some n) (some m) e e' same (open_chan, there) =
      let chan : m.chan ≡ n.chan = cc in
      let slot : m.slot ≡ n.slot = cc in (rw (e, chan) open_chan, rw (e', slot) there)

  -- A node's contents and what is closed or lost decide whether it can be told.
  pub CanTellAll-contents :
      (s t : World) (xs : List Ptr)
      → t.closed ≡ s.closed
      → t.lost ≡ s.lost
      → ((a : Ptr) → contents (t.pendings.node a) ≡ contents (s.pendings.node a))
      → CanTellAll s xs
      → CanTellAll t xs
  CanTellAll-contents s t [] e e' same h = tt
  CanTellAll-contents s t (x ∷ xs) e e' same (h, hs) = (
    CanTell-contents s t (s.pendings.node x) (t.pendings.node x) e e' (same x) h,
    CanTellAll-contents s t xs e e' same hs,
  )

  abbrev pub notice : Status → String → Option AsyncPending → List Given
  notice why msg none = []
  notice why msg (some n) = record { chan = n.chan; status = why; payload = a_text msg } ∷ []

  -- One tuple for each node of `xs`, in order, to the node's channel.
  abbrev pub notices : Status → String → Heap → List Ptr → List Given
  notices why msg h [] = []
  notices why msg h (x ∷ xs) = notice why msg (h x) ++ notices why msg h xs

  -- The world in which each node of `xs` was told.
  abbrev pub told : Status → String → List Ptr → World → World
  told why msg xs s = record s {
    given = s.given ++ notices why msg s.pendings.node xs;
    unreferenced = s.unreferenced ++ slots s.pendings.node xs;
  }
