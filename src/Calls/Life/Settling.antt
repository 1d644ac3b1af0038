-- ===== src/Calls/Life/Settling.antt =====
-- The end of a connection after any life: `closeall_pending` of src/async.c.
use Prim.Native.String.{String}
use janet_sdbus.Base.{◌+◌, ◌≡◌, List, ◌++◌, Outcome, ok, length}
use janet_sdbus.Pending.{null, AsyncError}
use janet_sdbus.Pending.Links.{Links}
use janet_sdbus.Calls.{BusLibrary, Given, World}
use janet_sdbus.Calls.Life.{Ledger}

module _ ⦃w : BusLibrary⦄ where
  open w use {Message, get_type}

  -- The connection has come to its end.
  pub record Settled (l : Ledger) (s : World) (o : Outcome AsyncError World (Unit {0}))
      : Type 0 where
    pub final : World
    pub returns : o ≡ ok tt final
    pub empty : final.pendings.head ≡ null
    -- what was given before, and then the notices
    pub last_given : List Given
    pub given : final.given ≡ s.given ++ last_given
    pub tuples : length final.given + l.cancelled ≡ l.made + l.published
