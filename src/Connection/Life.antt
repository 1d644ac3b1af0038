-- ===== src/Connection/Life.antt =====
-- The life of a connection of src/bus.c, from its opening to the garbage collector.
use janet_sdbus.Base.{
  ◌≡◌, refl, true, false, Bool, List, [], ◌∷◌, ◌++◌, none, some, Option, Outcome, ok, panic, fault,
  out_of_fuel, and_then, append-nil, ◌∙◌, subst, ℤ, is_negative, is_zero, Bool-cases, inl, inr,
  if◌then◌else◌,
}
use janet_sdbus.Pending.{AsyncError}
use janet_sdbus.Signature.{Bytes}
use janet_sdbus.Calls.{BusLibrary}
use janet_sdbus.Listeners.{Loop, Callback}
use janet_sdbus.Connection.{
  Target, timerfd_create_failed, or_raise, janet_poll, on_timer, Stream, OpenLibrary,
  ConnectionError, held, Connection, Live, Closer, outside, called, init_async, open_bus,
  close_held, clear_bus_stream, clear_timer, close_timer, Name, close_bus, dbus_bus_gc, bus_is_open,
  get_unique_name, dbus_bus_tostring, set_allow_interactive_authorization, list_names, push_names,
}

module _ ⦃w : BusLibrary⦄ ⦃o : OpenLibrary⦄ where
  open o use {Bus, open_with, timerfd_create, is_open, unique_name}

  -- A run has come to `t`: it returned there, or it panicked there, and the connection lives on.
  pub data Reaches {A : Type 0} (t : Connection)
      : Outcome ConnectionError Connection A → Type 0 where
    returned : {a : A} → Reaches t (ok a t)
    panicked : {e : ConnectionError} → Reaches t (panic e t)

  -- What can happen to a connection that is open, or that was to be opened: it is closed, its streams'
  -- callbacks run, and it is asked.
  pub data Step (s t : Connection) : Type 0 where
    closing : (close : Closer) → Reaches t (close_bus close s) → Step s t
    event : (callback : Callback (Unit {0})) → Reaches t (outside s (callback s.loop)) → Step s t
    asking : Reaches t (bus_is_open s) → Step s t
    naming : Reaches t (get_unique_name s) → Step s t
    printing : (buffer : Bytes) → Reaches t (dbus_bus_tostring buffer s) → Step s t
    allowing : (allow : Bool) → Reaches t (set_allow_interactive_authorization allow s) → Step s t
    listing : Reaches t (list_names s) → Step s t

  pub data Steps (s : Connection) : Connection → Type 0 where
    start : Steps s s
    step : {t u : Connection} → Steps s t → Step t u → Steps s u

  -- The bus that the opening has made.
  abbrev pub made : Target → List Bus
  made target = if is_negative (open_with target).0 then [] else (open_with target).1 ∷ []

  -- What was released, and what is to be.
  abbrev account : Connection → List Bus
  account s = s.released ++ held s.bus

  data Accounts {A : Type 0} (bs : List Bus) : Outcome ConnectionError Connection A → Type 0 where
    returns : {a : A} {t : Connection} → account t ≡ bs → Accounts bs (ok a t)
    panics : {e : ConnectionError} {t : Connection} → account t ≡ bs → Accounts bs (panic e t)
    faults : Accounts bs fault
    runs_out : Accounts bs out_of_fuel

  Accounts-Reaches :
      {A : Type 0} {bs : List Bus} {t : Connection} {r : Outcome ConnectionError Connection A}
      → Reaches t r
      → Accounts bs r
      → account t ≡ bs
  Accounts-Reaches returned (returns h) = h
  Accounts-Reaches panicked (panics h) = h

  Accounts-bind :
      {A B : Type 0} {bs : List Bus} {r : Outcome ConnectionError Connection A} (k : A → Live B)
      → Accounts bs r
      → ((a : A) (t : Connection) → account t ≡ bs → Accounts bs (k a t))
      → Accounts bs (and_then r k)
  Accounts-bind k (returns {a} {t} h) go = go a t h
  Accounts-bind k (panics h) go = panics h
  Accounts-bind k faults go = faults
  Accounts-bind k runs_out go = runs_out

  outside-Accounts :
      {A : Type 0} (s : Connection) (r : Outcome AsyncError Loop A)
      → Accounts (account s) (outside s r)
  outside-Accounts s (ok a t) = returns refl
  outside-Accounts s (panic e t) = panics refl
  outside-Accounts s fault = faults
  outside-Accounts s out_of_fuel = runs_out

  close_held-Accounts :
      (close : Closer) (clear : Live (Unit {0})) (p : Option Stream) (s : Connection)
      → ((t : Connection) → Accounts (account t) (clear t))
      → Accounts (account s) (close_held close clear p s)
  close_held-Accounts close clear none s clears = returns refl
  close_held-Accounts close clear (some stream) s clears =
      Accounts-bind _ (outside-Accounts s (close stream s.loop))
        λ a t h. subst (λ bs. Accounts bs (clear t)) h (clears t)

  close_bus-Accounts : (close : Closer) (s : Connection) → Accounts (account s) (close_bus close s)
  unfolding close_bus
  close_bus-Accounts close s =
      Accounts-bind _
        (close_held-Accounts close clear_bus_stream s.bus_stream s (λ t. returns refl))
        λ _ t h.
          Accounts-bind _
            (subst (λ bs. Accounts bs (close_timer close t)) h
              (close_held-Accounts close clear_timer t.timer t (λ u. returns refl)))
            λ _ u k. returns (append-nil (u.released ++ held u.bus) ∙ k)

  called-Accounts : (name : _) (rv : ℤ) (s : Connection) → Accounts (account s) (called name rv s)
  called-Accounts name rv s = elim (Bool-cases (is_negative rv)) [
    | inl failed ↦ rw failed (panics refl)
    | inr good ↦ rw good (returns refl)
  ]

  -- A question, and what is made of the answer.
  asking-Accounts :
      {A : Type 0} (name : _) (rv : ℤ) (s : Connection) (k : ℤ → Live A)
      → ((rv : ℤ) → Accounts (account s) (k rv s))
      → Accounts (account s) (and_then (called name rv s) k)
  asking-Accounts name rv s k go = elim (Bool-cases (is_negative rv)) [
    | inl failed ↦ rw failed (panics refl)
    | inr good ↦ rw good (go rv)
  ]

  open_or_not :
      {A : Type 0} {bs : List Bus} {s : Connection} (b : Bool) (m n : Live A)
      → Accounts bs (m s)
      → Accounts bs (n s)
      → Accounts bs ((if b then m else n) s)
  open_or_not true m n h k = h
  open_or_not false m n h k = k

  push_names-Accounts :
      (list : List Bytes) (ps : List Name) (s : Connection)
      → Accounts (account s) (push_names list ps s)
  unfolding push_names
  push_names-Accounts list [] s = returns refl
  push_names-Accounts list (p ∷ ps) s =
      push_names-Accounts (list ++ p.text ∷ []) ps (record s { freed = s.freed ++ p.block ∷ [] })

  Step-account : {s t : Connection} → Step s t → account t ≡ account s
  unfolding bus_is_open get_unique_name dbus_bus_tostring set_allow_interactive_authorization
      list_names
  Step-account {s} (closing close r) = Accounts-Reaches r (close_bus-Accounts close s)
  Step-account {s} (event callback r) = Accounts-Reaches r (outside-Accounts s (callback s.loop))
  Step-account {s} (asking r) =
      Accounts-Reaches r (asking-Accounts "sd_bus_is_open" (is_open s.bus) s _ λ rv. returns refl)
  Step-account {s} (naming r) = Accounts-Reaches r (
      asking-Accounts "sd_bus_is_open" (is_open s.bus) s _ λ rv.
        open_or_not (is_zero rv) _ _ (returns refl)
          (asking-Accounts "sd_bus_get_unique_name" (unique_name s.bus).0 s _ λ rv. returns refl))
  Step-account {s} (printing buffer r) = Accounts-Reaches r (
      asking-Accounts "sd_bus_is_open" (is_open s.bus) s _ λ rv.
        open_or_not (is_zero rv) _ _ (returns refl)
          (asking-Accounts "sd_bus_get_unique_name" (unique_name s.bus).0 s _ λ rv. returns refl))
  Step-account {s} (allowing allow r) = Accounts-Reaches r (
      asking-Accounts "sd_bus_set_allow_interactive_authorization" (o.set_allow s.bus allow) s _
        λ rv. returns refl)
  Step-account {s} (listing r) = Accounts-Reaches r (
      asking-Accounts "sd_bus_list_names" (o.list_names s.bus).0 s _ λ rv.
        Accounts-bind _ (push_names-Accounts [] (o.list_names s.bus).1.0 s) λ list t h. returns h)

  Steps-account : {s t : Connection} → Steps s t → account t ≡ account s
  Steps-account start = refl
  Steps-account (step past now) = Step-account now ∙ Steps-account past

  or_raise-Accounts :
      {A B : Type 0} (e : ConnectionError) (p : Option A) (s : Connection) (k : A → Live B)
      → ((a : A) → Accounts (account s) (k a s))
      → Accounts (account s) (and_then (or_raise e p s) k)
  or_raise-Accounts e none s k go = panics refl
  or_raise-Accounts e (some a) s k go = go a

  init_async-Accounts : (s : Connection) → Accounts (account s) (init_async s)
  unfolding init_async
  init_async-Accounts s = or_raise-Accounts timerfd_create_failed timerfd_create s _ λ fd.
      let t = record s { timer = some (janet_poll fd true false false on_timer) } in
      asking-Accounts "sd_bus_get_fd" (o.get_fd s.bus) t _ λ bus_fd.
        asking-Accounts "sd_bus_get_events" (o.get_events s.bus) t _ λ events. returns refl

  open_bus-Accounts :
      (target : Target) (s : Connection)
      → s.released ≡ []
      → s.bus ≡ none
      → Accounts (made target) (open_bus target s)
  unfolding open_bus
  open_bus-Accounts target s nothing fresh = elim (Bool-cases (is_negative (open_with target).0)) [
    | inl failed ↦ rw failed (panics (rw (nothing, fresh) refl))
    | inr good ↦ rw good (
        subst (λ bs. Accounts bs (init_async (record s { bus = some (open_with target).1 })))
          (rw nothing refl) (init_async-Accounts (record s { bus = some (open_with target).1 })))
  ]

  -- A connection of zeros is opened, with success or not, and then it is closed, called back and
  -- asked, in any order and any number of times, until the garbage collector takes it: its bus was
  -- released exactly once, if `sd_bus_open` and its like have made one, and no other bus.
  pub dbus_bus_gc-Steps :
      {t u : Connection} (target : Target) (s : Connection)
      → s.released ≡ []
      → s.bus ≡ none
      → Reaches t (open_bus target s)
      → Steps t u
      → dbus_bus_gc u ≡ ok tt (record u { released = made target })
  unfolding dbus_bus_gc
  dbus_bus_gc-Steps {u} target s nothing fresh opened past =
      let all : account u ≡ made target =
        Steps-account past ∙ Accounts-Reaches opened (open_bus-Accounts target s nothing fresh) in
      rw all refl
