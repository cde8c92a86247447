-- ===== src/Prelude/Results.antt =====
-- A computation that returns or raises, and one that does so on a state.
use mathlib.Core.Bool.{Bool, true, false}

pub data Result {ℓ κ} (E : Type ℓ) (A : Type κ) : Type (ℓ ⊔ κ) where
  ok : A → Result E A
  raise : E → Result E A

-- A method returns the new state, and its result or the exception: what it did to the state before
-- it raised is kept.
abbrev pub Action : Type 0 → Type 0 → Type 0 → Type 0
Action S E A = S → S × Result E A

infixl 5 ◌>>=◌ ◌>>◌
abbrev pub and_then : {S E A B : Type 0} → S × Result E A → (A → Action S E B) → S × Result E B
and_then (s, ok a) f = f a s
and_then (s, raise e) f = (s, raise e)

abbrev pub ◌>>=◌ : {S E A B : Type 0} → Action S E A → (A → Action S E B) → Action S E B
◌>>=◌ m f s = and_then (m s) f

abbrev pub ◌>>◌ : {S E B : Type 0} → Action S E (Unit {0}) → Action S E B → Action S E B
m >> k = m >>= λ _. k

abbrev pub pure : {S E A : Type 0} → A → Action S E A
pure a s = (s, ok a)

abbrev pub throw : {S E A : Type 0} → E → Action S E A
throw e s = (s, raise e)

-- `if b: raise e`
abbrev pub throw_if : {S E : Type 0} → Bool → E → Action S E (Unit {0})
throw_if true e s = (s, raise e)
throw_if false e s = (s, ok tt)
