-- ===== src/Orm.antt =====
-- nexau/archs/session/orm: the Filter DSL (filters/dsl.py), its evaluation on one record
-- (filters/converter.py) and the in-memory engine (memory_engine.py).
pub mod Filters
pub mod Engine
use nex_au.Prelude.{
  ℕ, ◌≡◌, ◌↔◌, refl, ap, Bool, true, false, ◌==◌, Eq, nat_eq, list_eq, beq_path, beq_self, subst,
}
use nex_au.Prelude.Text.{Text}

-- A column's value. A Python bool is the int 0 or 1, which it equals; ints are non-negative, and
-- floats and JSON columns take part in no filter.
pub data Value : Type 0 where
  null : Value
  num : ℕ → Value
  str : Text → Value

abbrev pub flag : Bool → Value
flag true = num 1
flag false = num 0

abbrev pub value_beq : Value → Value → Bool
value_beq null null = true
value_beq (num a) (num b) = a == b
value_beq (str s) (str t) = s == t
value_beq _ _ = false

value_beq_path : (a b : Value) → value_beq a b ≡ true → a ≡ b
value_beq_path null null h = refl
value_beq_path (num a) (num b) h = ap num (beq_path a b h)
value_beq_path (str s) (str t) h = ap str (beq_path s t h)
value_beq_path null (num b) h = cc
value_beq_path null (str b) h = cc
value_beq_path (num a) null h = cc
value_beq_path (num a) (str b) h = cc
value_beq_path (str a) null h = cc
value_beq_path (str a) (num b) h = cc

value_beq_refl : (a : Value) → value_beq a a ≡ true
value_beq_refl null = refl
value_beq_refl (num a) = beq_self a
value_beq_refl (str s) = beq_self s

pub value_beq_iff : (a b : Value) → (value_beq a b ≡ true) ↔ (a ≡ b)
value_beq_iff a b =
    (value_beq_path a b, λ p. subst (λ c. value_beq a c ≡ true) p (value_beq_refl a))

instance abbrev pub value_eq : Eq Value
value_eq = record { decides = value_beq_iff; same = value_beq }
