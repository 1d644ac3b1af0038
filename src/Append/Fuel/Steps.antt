-- ===== src/Append/Fuel/Steps.antt =====
-- Runs with less and with more fuel. `More o o'`: the run `o` runs out of fuel, or `o'` is the same.
use janet_sdbus.Base.{Bool, true, false, Outcome, out_of_fuel, and_then, if◌then◌else◌}
use janet_sdbus.Platform.{Platform}
use janet_sdbus.Unwrap.{Panic, Run}
use janet_sdbus.Append.Sending.{World}

module _ ⦃w : Platform⦄ where
  open w use {Janet, Double}

  pub data More {A : Type 0}
      : Outcome (Panic Janet Double) World A → Outcome (Panic Janet Double) World A → Type 0 where
    ran_out : {o : Outcome (Panic Janet Double) World A} → More out_of_fuel o
    same : {o : Outcome (Panic Janet Double) World A} → More o o

  pub More-bind :
      {A B : Type 0} {o o' : Outcome (Panic Janet Double) World A} {k k' : A → Run B}
      → More o o'
      → ((a : A) (t : World) → More (k a t) (k' a t))
      → More (and_then o k) (and_then o' k')
  More-bind ran_out h = ran_out
  More-bind (same {o = Outcome.ok a t}) h = h a t
  More-bind (same {o = Outcome.panic e t}) h = same
  More-bind (same {o = Outcome.fault}) h = same
  More-bind (same {o = Outcome.out_of_fuel}) h = same

  -- A step that is the same with more fuel.
  pub More-after :
      {A B : Type 0} (o : Outcome (Panic Janet Double) World A) {k k' : A → Run B}
      → ((a : A) (t : World) → More (k a t) (k' a t))
      → More (and_then o k) (and_then o k')
  More-after o h = More-bind same h

  pub More-if :
      {A : Type 0} (b : Bool) (m n m' n' : Run A) (s : World)
      → More (m s) (m' s)
      → More (n s) (n' s)
      → More ((if b then m else n) s) ((if b then m' else n') s)
  More-if true m n m' n' s h k = h
  More-if false m n m' n' s h k = k
