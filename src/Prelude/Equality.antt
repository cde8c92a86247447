-- ===== src/Prelude/Equality.antt =====
-- Python's `==` on numbers, strings and lists of such, as one operator with its law.
use Prim.Native.Nat.{ℕ}
use mathlib.Core.Path.{◌≡◌, refl, subst}
use mathlib.Core.Logic.{◌↔◌, ◌≢◌, inl, inr}
use mathlib.Core.Bool.{Bool, true, false, ◌&&◌, ◌||◌}
use mathlib.Core.Option.{Option, none, some}
use mathlib.Core.List.{List, [], ◌∷◌}
use native.Mathlib.Omega.{arith}
use nex_au.Prelude.Tests.{nat_beq, nat_beq_iff, and-eq-true, Bool-cases}

-- A type whose values Python compares by a test that decides equality.
pub record Eq {ℓ} (T : Type ℓ) : Type ℓ where
  pub same : T → T → Bool
  pub decides : (x y : T) → (same x y ≡ true) ↔ (x ≡ y)

instance abbrev pub nat_eq : Eq ℕ
nat_eq = record { decides = nat_beq_iff; same = nat_beq }

infix 50 ◌==◌
abbrev pub ◌==◌ {ℓ} : {T : Type ℓ} ⦃c : Eq T⦄ (x y : T) → Bool
◌==◌ ⦃c⦄ x y = c.same x y

module _ {ℓ} {A : Type ℓ} ⦃e : Eq A⦄ where
  abbrev pub list_beq : List A → List A → Bool
  list_beq [] [] = true
  list_beq (x ∷ xs) (y ∷ ys) = e.same x y && list_beq xs ys
  list_beq _ _ = false

  list_beq_refl : (xs : List A) → list_beq xs xs ≡ true
  list_beq_refl [] = refl
  list_beq_refl (x ∷ xs) = ground (arith, (e.decides x x).1 refl, list_beq_refl xs)

  list_beq_path : (xs ys : List A) → list_beq xs ys ≡ true → xs ≡ ys
  list_beq_path [] [] h = refl
  list_beq_path [] (y ∷ ys) h = cc
  list_beq_path (x ∷ xs) [] h = cc
  list_beq_path (x ∷ xs) (y ∷ ys) h =
      let p = and-eq-true (e.same x y) (list_beq xs ys) h in
      cc ((e.decides x y).0 p.0, list_beq_path xs ys p.1)

  pub list_beq_iff : (xs ys : List A) → (list_beq xs ys ≡ true) ↔ (xs ≡ ys)
  list_beq_iff xs ys =
      (list_beq_path xs ys, λ p. subst (λ zs. list_beq xs zs ≡ true) p (list_beq_refl xs))

  abbrev pub option_beq : Option A → Option A → Bool
  option_beq none none = true
  option_beq (some x) (some y) = e.same x y
  option_beq _ _ = false

  pub option_beq_iff : (x y : Option A) → (option_beq x y ≡ true) ↔ (x ≡ y)
  option_beq_iff none none = (λ _. refl, λ _. refl)
  option_beq_iff none (some y) = (λ h. cc, λ h. cc)
  option_beq_iff (some x) none = (λ h. cc, λ h. cc)
  option_beq_iff (some x) (some y) = (λ h. cc ((e.decides x y).0 h), λ h. (e.decides x y).1 (cc))

instance abbrev pub list_eq {ℓ} : {A : Type ℓ} ⦃e : Eq A⦄ → Eq (List A)
list_eq = record { decides = list_beq_iff; same = list_beq }

instance abbrev pub option_eq {ℓ} : {A : Type ℓ} ⦃e : Eq A⦄ → Eq (Option A)
option_eq = record { decides = option_beq_iff; same = option_beq }

module _ {ℓ} {A : Type ℓ} ⦃e : Eq A⦄ where
  pub beq_self : (a : A) → (a == a) ≡ true
  beq_self a = (e.decides a a).1 refl

  pub beq_path : (a b : A) → (a == b) ≡ true → a ≡ b
  beq_path a b = (e.decides a b).0

  pub beq_ne : (a b : A) → (a == b) ≡ false → a ≢ b
  beq_ne a b h p = cc (h, (e.decides a b).1 p)

  pub ne_beq : (a b : A) → a ≢ b → (a == b) ≡ false
  ne_beq a b h = elim (Bool-cases (a == b)) [
    | inl same ↦ absurd (h ((e.decides a b).0 same))
    | inr differ ↦ differ
  ]

  -- `a in xs`
  abbrev pub contains : List A → A → Bool
  contains [] a = false
  contains (x ∷ xs) a = (a == x) || contains xs a
