-- ===== src/Orm/Engine/Batches.antt =====
-- nexau/archs/session/orm/memory_engine.py: `update` of one model after the other, and what a lookup
-- finds behind it.
use nex_au.Prelude.{
  ◌≡◌, refl, ap, sym, ◌∙◌, ◌⊎◌, inl, inr, Bool, true, false, ◌||◌, some, List, [], ◌∷◌, ◌++◌, ◌==◌,
  list_eq, arith, contains, select, All, Bool-cases, beq_self, beq_path, beq_ne, ne_beq,
  or-eq-false, or_true, if◌then◌else◌, subst,
}
use nex_au.Orm.{value_eq}
use nex_au.Orm.Engine.{Key, Table, values, find_one, update}
use nex_au.Orm.Engine.Keys.{WellKeyed, update-WellKeyed}
use nex_au.Orm.Engine.Laws.{lookup, lookup-update}

beq_flip : (j k : Key) → (j == k) ≡ false → (k == j) ≡ false
beq_flip j k h = ne_beq k j (λ e. beq_ne j k h (sym e))

module _ {M : Type 0} (pk : M → Key) where
  -- `for m in ms: await engine.update(m)`
  pub update_each : List M → Table M → Table M
  update_each [] t = t
  update_each (m ∷ ms) t = update_each ms (update pk m t)

  abbrev pub keys : List M → List Key
  keys [] = []
  keys (m ∷ ms) = pk m ∷ keys ms

  pub update_each-WellKeyed :
      (ms : List M) (t : Table M) → WellKeyed pk t → WellKeyed pk (update_each ms t)
  unfolding update_each
  update_each-WellKeyed [] t w = w
  update_each-WellKeyed (m ∷ ms) t w =
      update_each-WellKeyed ms (update pk m t) (update-WellKeyed pk m t w)

  -- A lookup finds one of the updated models, or what it found before.
  pub lookup-update_each :
      (P : M → Type 0) (k : Key) (ms : List M) (t : Table M) {m : M}
      → WellKeyed pk t
      → All P ms
      → lookup pk k (update_each ms t) ≡ some m
      → P m ⊎ ((lookup pk k t ≡ some m) × (contains (keys ms) k ≡ false))
  unfolding update_each
  lookup-update_each P k [] t w h e = inr (e, refl)
  lookup-update_each P k (n ∷ ms) t {m} w h e =
      elim (lookup-update_each P k ms (update pk n t) (update-WellKeyed pk n t w) h.1 e) [
        | inl p ↦ inl p
        | inr (f, other) ↦
            let now : (if pk n == k then some n else lookup pk k t) ≡ some m =
              sym (lookup-update pk k n t w) ∙ f in
            elim (Bool-cases (k == pk n)) [
              | inl g ↦
                  let here : (pk n == k) ≡ true =
                    ap (λ j. pk n == j) (beq_path k (pk n) g) ∙ beq_self (pk n) in
                  let found =
                    ap (λ (b : Bool). if b then some n else lookup pk k t) (sym here) ∙ now in
                  let same : n ≡ m = cc found in inl (subst P same h.0)
              | inr g ↦
                  let away = beq_flip k (pk n) g in
                  inr (
                    ap (λ (b : Bool). if b then some n else lookup pk k t) (sym away) ∙ now,
                    rw g other,
                  )
            ]
      ]

  -- The models of other keys stay.
  pub lookup-update_each_other :
      (k : Key) (ms : List M) (t : Table M)
      → WellKeyed pk t
      → contains (keys ms) k ≡ false
      → lookup pk k (update_each ms t) ≡ lookup pk k t
  unfolding update_each
  lookup-update_each_other k [] t w h = refl
  lookup-update_each_other k (n ∷ ms) t w h =
      let (other, rest) = or-eq-false (k == pk n) (contains (keys ms) k) h in
      lookup-update_each_other k ms (update pk n t) (update-WellKeyed pk n t w) rest
      ∙ lookup-update pk k n t w
      ∙ ap (λ (b : Bool). if b then some n else lookup pk k t) (beq_flip k (pk n) other)

  -- What a lookup finds and a filter accepts is among the models that the filter selects.
  pub keys-select :
      (p : M → Bool) (k : Key) (t : Table M) {m : M}
      → lookup pk k t ≡ some m
      → p m ≡ true
      → contains (keys (select p (values t))) k ≡ true
  unfolding find_one
  keys-select p k [] h e = cc
  keys-select p k ((i, n) ∷ t) {m} h e = elim (Bool-cases (pk n == k)) [
    | inl f ↦
        let same : n ≡ m = cc (rw f at h) in
        let accepted : p n ≡ true = ap p same ∙ e in
        let mine : (k == pk n) ≡ true = ap (λ j. k == j) (beq_path (pk n) k f) ∙ beq_self k in
        rw (accepted, mine) refl
    | inr f ↦
        let rest = keys-select p k t (rw f at h) e in
        elim (Bool-cases (p n)) [ inl g ↦ rw (g, rest) (or_true (k == pk n)) | inr g ↦ rw g rest ]
  ]

  pub contains-keys :
      (k : Key) (xs ys : List M)
      → contains (keys (xs ++ ys)) k ≡ (contains (keys xs) k || contains (keys ys) k)
  contains-keys k [] ys = refl
  contains-keys k (x ∷ xs) ys =
      rw (contains-keys k xs ys) (assoc (k == pk x) (contains (keys xs) k) (contains (keys ys) k))
    where
      assoc : (a b c : Bool) → (a || (b || c)) ≡ ((a || b) || c)
      assoc a b c = ground arith
