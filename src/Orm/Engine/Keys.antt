-- ===== src/Orm/Engine/Keys.antt =====
-- The invariant of a table: every model stands under its own primary key, and no key stands twice.
use nex_au.Prelude.{
  ◌≡◌, ◌≢◌, refl, sym, subst, inl, inr, Bool, true, false, ◌||◌, List, [], ◌∷◌, ◌==◌, list_eq,
  arith, Bool-cases, beq_path, ne_beq, beq_ne,
}
use nex_au.Prelude.Results.{Result, ok, raise}
use nex_au.Orm.{value_eq}
use nex_au.Orm.Engine.{
  Key, Table, EngineError, has_key, store, keep_others, delete, create, create_rest, create_many,
  update,
}

or_self : (a b : Bool) → (a || b) ≡ (a || (a || b))
or_self true b = refl
or_self false b = refl

or_swap : (a b c : Bool) → (a || (b || c)) ≡ (b || (a || c))
or_swap a b c = ground arith

or_false : (k i : Key) {b : Bool} → b ≡ false → i ≢ k → ((k == i) || b) ≡ false
or_false k i h n = rw (ne_beq k i (λ p. n (sym p)), h)

module _ {M : Type 0} (pk : M → Key) where
  abbrev pub WellKeyed : Table M → Type 0
  WellKeyed [] = Unit
  WellKeyed ((k, m) ∷ t) = (k ≡ pk m) × (has_key k t ≡ false) × WellKeyed t

  -- `store` adds its key and no other.
  has_key-store :
      (k j : Key) (m : M) (t : Table M) → has_key j (store k m t) ≡ ((k == j) || has_key j t)
  unfolding store
  has_key-store k j m [] = refl
  has_key-store k j m ((i, n) ∷ t) = elim (Bool-cases (i == k)) [
    | inl e ↦ rw e (
        subst (λ x. ((i == j) || has_key j t) ≡ ((x == j) || ((i == j) || has_key j t)))
          (beq_path i k e) (or_self (i == j) (has_key j t)))
    | inr e ↦ rw (e, has_key-store k j m t) (or_swap (i == j) (k == j) (has_key j t))
  ]

  has_key-keep_others :
      (p : M → Bool) (j : Key) (t : Table M)
      → has_key j t ≡ false
      → has_key j (keep_others p t) ≡ false
  unfolding keep_others
  has_key-keep_others p j [] h = refl
  has_key-keep_others p j ((i, n) ∷ t) h = ground (arith, has_key-keep_others p j t)

  store-WellKeyed : (m : M) (t : Table M) → WellKeyed t → WellKeyed (store (pk m) m t)
  unfolding store
  store-WellKeyed m [] h = (refl, refl, tt)
  store-WellKeyed m ((i, n) ∷ t) h = elim (Bool-cases (i == pk m)) [
    | inl e ↦ rw e (beq_path i (pk m) e, h.1, h.2)
    | inr e ↦ rw e (
      h.0,
      rw (has_key-store (pk m) i m t) (or_false (pk m) i h.1 (beq_ne i (pk m) e)),
      store-WellKeyed m t h.2,
    )
  ]

  keep_others-WellKeyed : (p : M → Bool) (t : Table M) → WellKeyed t → WellKeyed (keep_others p t)
  unfolding keep_others
  keep_others-WellKeyed p [] h = tt
  keep_others-WellKeyed p ((i, n) ∷ t) h = elim (Bool-cases (p n)) [
    | inl e ↦ rw e (keep_others-WellKeyed p t h.2)
    | inr e ↦ rw e (h.0, has_key-keep_others p i t h.1, keep_others-WellKeyed p t h.2)
  ]

  -- Creating a model keeps the invariant, whether it is stored or refused.
  pub create-WellKeyed : (m : M) (t : Table M) → WellKeyed t → WellKeyed (create pk m t).0
  unfolding create
  create-WellKeyed m t h = elim (Bool-cases (has_key (pk m) t)) [
    | inl e ↦ rw e h
    | inr e ↦ rw e (store-WellKeyed m t h)
  ]

  pub update-WellKeyed : (m : M) (t : Table M) → WellKeyed t → WellKeyed (update pk m t)
  unfolding update
  update-WellKeyed m t h = store-WellKeyed m t h

  pub delete-WellKeyed : (p : M → Bool) (t : Table M) → WellKeyed t → WellKeyed (delete p t).0
  unfolding delete
  delete-WellKeyed p t h = keep_others-WellKeyed p t h

  create_rest-WellKeyed :
      (go : Table M → Table M × Result EngineError (Unit {0})) (r : Table M × Result EngineError M)
      → ((t : Table M) → WellKeyed t → WellKeyed (go t).0)
      → WellKeyed r.0
      → WellKeyed (create_rest go r).0
  unfolding create_rest
  create_rest-WellKeyed go (t, ok m) h w = h t w
  create_rest-WellKeyed go (t, raise e) h w = w

  -- `create_many` keeps every model of the table under its own key, and each key once, also where it
  -- stops at a duplicate.
  pub create_many-WellKeyed :
      (ms : List M) (t : Table M) → WellKeyed t → WellKeyed (create_many pk ms t).0
  unfolding create_many
  create_many-WellKeyed [] t h = h
  create_many-WellKeyed (m ∷ ms) t h =
      create_rest-WellKeyed (create_many pk ms) (create pk m t) (create_many-WellKeyed ms)
        (create-WellKeyed m t h)
