-- ===== src/Base/Commands.antt =====
-- Runs of C code that may leave by `janet_panic` (a longjmp: no cleanup code runs, and the state is
-- what it was at the panic), that may touch freed memory, and that run on fuel.

-- `panic` keeps the state that the code had reached; `fault` is undefined behaviour.
pub data Outcome (E S A : Type 0) : Type 0 where
  ok : A → S → Outcome E S A
  panic : E → S → Outcome E S A
  fault : Outcome E S A
  out_of_fuel : Outcome E S A

abbrev pub Cmd : Type 0 → Type 0 → Type 0 → Type 0
Cmd E S A = S → Outcome E S A

module _ {E S A : Type 0} where
  abbrev pub pure : A → Cmd E S A
  pure = ok

  abbrev pub raise : E → Cmd E S A
  raise = panic

  abbrev pub stuck : Cmd E S A
  stuck s = fault

  abbrev pub no_fuel : Cmd E S A
  no_fuel s = out_of_fuel

  module _ {B : Type 0} where
    abbrev pub and_then : Outcome E S A → (A → Cmd E S B) → Outcome E S B
    and_then (ok a s) k = k a s
    and_then (panic e s) k = panic e s
    and_then fault k = fault
    and_then out_of_fuel k = out_of_fuel

    infixl 5 ◌>>=◌ ◌>>◌
    abbrev pub ◌>>=◌ : Cmd E S A → (A → Cmd E S B) → Cmd E S B
    m >>= k = λ s. and_then (m s) k

    abbrev pub ◌>>◌ : Cmd E S A → Cmd E S B → Cmd E S B
    m >> n = m >>= λ _. n
