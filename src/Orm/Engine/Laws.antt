-- ===== src/Orm/Engine/Laws.antt =====
-- What a lookup by primary key returns after each operation of the engine: the table as a finite
-- map from keys to models.
use nex_au.Prelude.{
  ◌+◌, ◌≡◌, refl, ap, sym, subst, ◌∙◌, ◌⊎◌, inl, inr, Bool, true, false, not, ◌&&◌, ◌||◌, Option,
  none, some, [], ◌∷◌, ◌==◌, list_eq, arith, select, All, beq_self, All-mono, Bool-cases, beq_path,
  beq_ne, if◌then◌else◌,
}
use nex_au.Orm.{value_eq}
use nex_au.Orm.Engine.{
  Key, Table, has_key, store, find_one, keep_others, count, delete, create, update, values,
}
use nex_au.Orm.Engine.Keys.{WellKeyed}

abbrev pub unless {ℓ} : {A : Type ℓ} → (A → Bool) → Option A → Option A
unless p none = none
unless p (some a) = if p a then none else some a

abbrev pub is_some {ℓ} : {A : Type ℓ} → Option A → Bool
is_some none = false
is_some (some _) = true

if_same {ℓ} :
    {A : Type ℓ} (b : Bool) (x y z : A)
    → (if b then x else y) ≡ (if b then x else (if b then z else y))
if_same true x y z = refl
if_same false x y z = refl

if_swap {ℓ} :
    {A : Type ℓ} (b c : Bool) (x y z : A)
    → (b ≡ true → c ≡ true → ⊥)
    → (if c then x else (if b then y else z)) ≡ (if b then y else (if c then x else z))
if_swap true true x y z h = absurd (h refl refl)
if_swap true false x y z h = refl
if_swap false c x y z h = refl

or_is_some {ℓ} :
    {A : Type ℓ} (b c : Bool) (a : A) (o : Option A)
    → c ≡ is_some o
    → (b || c) ≡ is_some (if b then some a else o)
or_is_some true c a o h = refl
or_is_some false c a o h = h

pub is_some-none {ℓ} : {A : Type ℓ} (o : Option A) → is_some o ≡ false → o ≡ none
is_some-none none h = refl
is_some-none (some a) h = cc

if_found {ℓ} :
    {A : Type ℓ} (b : Bool) (n m : A) (o : Option A)
    → (if b then some n else o) ≡ some m
    → (b ≡ true) × (n ≡ m) ⊎ (o ≡ some m)
if_found true n m o h = inl (refl, cc)
if_found false n m o h = inr h

module _ {M : Type 0} (pk : M → Key) where
  -- The model with primary key `k`.
  abbrev pub by_key : Key → M → Bool
  by_key k m = pk m == k

  abbrev pub lookup : Key → Table M → Option M
  lookup k t = find_one (by_key k) t

  -- What a lookup finds has the key.
  pub lookup-by_key : (k : Key) (t : Table M) {m : M} → lookup k t ≡ some m → by_key k m ≡ true
  unfolding find_one
  lookup-by_key k [] h = cc
  lookup-by_key k ((i, n) ∷ t) {m} h = elim (if_found (pk n == k) n m (lookup k t) h) [
    | inl (e, p) ↦ subst (λ x. by_key k x ≡ true) p e
    | inr p ↦ lookup-by_key k t p
  ]

  lookup-store :
      (k : Key) (m : M) (t : Table M)
      → WellKeyed pk t
      → lookup k (store (pk m) m t) ≡ (if pk m == k then some m else lookup k t)
  unfolding store find_one
  lookup-store k m [] h = refl
  lookup-store k m ((i, n) ∷ t) h = elim (Bool-cases (i == pk m)) [
    | inl e ↦ rw e (
        subst
          (λ j.
            (if pk m == k then some m else lookup k t)
            ≡ (if pk m == k then some m else (if j == k then some n else lookup k t)))
          (sym (beq_path i (pk m) e) ∙ h.0) (if_same (pk m == k) (some m) (lookup k t) (some n)))
    | inr e ↦
        rw (e, lookup-store k m t h.2)
          (if_swap (pk m == k) (pk n == k) (some n) (some m) (lookup k t)
            (λ p q. beq_ne i (pk m) e (h.0 ∙ beq_path (pk n) k q ∙ sym (beq_path (pk m) k p))))
  ]

  pub has_key-lookup : (k : Key) (t : Table M) → WellKeyed pk t → has_key k t ≡ is_some (lookup k t)
  unfolding find_one
  has_key-lookup k [] h = refl
  has_key-lookup k ((i, n) ∷ t) h =
      subst (λ j. ((j == k) || has_key k t) ≡ is_some (lookup k ((i, n) ∷ t))) (sym h.0)
        (or_is_some (pk n == k) (has_key k t) n (lookup k t) (has_key-lookup k t h.2))

  pub lookup-none :
      (k : Key) (t : Table M) → WellKeyed pk t → has_key k t ≡ false → lookup k t ≡ none
  lookup-none k t h e = is_some-none (lookup k t) (sym (has_key-lookup k t h) ∙ e)

  unless_if :
      (p : M → Bool) (b : Bool) (n : M) (o : Option M)
      → p n ≡ false
      → (if b then some n else unless p o) ≡ unless p (if b then some n else o)
  unless_if p true n o e = rw e
  unless_if p false n o e = refl

  lookup-keep_others :
      (p : M → Bool) (k : Key) (t : Table M)
      → WellKeyed pk t
      → lookup k (keep_others p t) ≡ unless p (lookup k t)
  unfolding keep_others find_one
  lookup-keep_others p k [] h = refl
  lookup-keep_others p k ((i, n) ∷ t) h = elim (Bool-cases (p n)) [
    | inr e ↦ rw (e, lookup-keep_others p k t h.2) (unless_if p (pk n == k) n (lookup k t) e)
    | inl e ↦ elim (Bool-cases (pk n == k)) [
      | inr f ↦ rw (e, f) (lookup-keep_others p k t h.2)
      | inl f ↦
          let gone : lookup k t ≡ none =
            lookup-none k t h.2
              (subst (λ j. has_key j t ≡ false) (h.0 ∙ beq_path (pk n) k f) h.1) in
          rw (e, f, e) (lookup-keep_others p k t h.2 ∙ ap (unless p) gone)
    ]
  ]

  -- After `create` of a model whose key is free, a lookup by primary key finds the new model under
  -- its key, and what it found before under every other key.
  pub lookup-create :
      (k : Key) (m : M) (t : Table M)
      → WellKeyed pk t
      → has_key (pk m) t ≡ false
      → lookup k (create pk m t).0 ≡ (if pk m == k then some m else lookup k t)
  unfolding create
  lookup-create k m t h e = rw e (lookup-store k m t h)

  -- After `update` a lookup of the model's key finds the model, and one of another key finds what it
  -- found before, where every model of the table stands under its own key.
  pub lookup-update :
      (k : Key) (m : M) (t : Table M)
      → WellKeyed pk t
      → lookup k (update pk m t) ≡ (if pk m == k then some m else lookup k t)
  unfolding update
  lookup-update k m t h = lookup-store k m t h

  -- After `delete` a lookup finds what it found before, unless the filter accepts that, where every
  -- model of the table stands under its own key.
  pub lookup-delete :
      (p : M → Bool) (k : Key) (t : Table M)
      → WellKeyed pk t
      → lookup k (delete p t).0 ≡ unless p (lookup k t)
  unfolding delete
  lookup-delete p k t h = lookup-keep_others p k t h

  -- Where the filter is another condition on the models of the key, that condition decides.
  pub lookup-delete_at :
      (p q : M → Bool) (k : Key) (t : Table M)
      → WellKeyed pk t
      → ((m : M) → by_key k m ≡ true → p m ≡ q m)
      → lookup k (delete p t).0 ≡ unless q (lookup k t)
  lookup-delete_at p q k t w h = lookup-delete p k t w ∙ go (lookup k t) refl
    where
      go : (o : Option M) → lookup k t ≡ o → unless p o ≡ unless q o
      go none e = refl
      go (some m) e = ap (λ (b : Bool). if b then none else some m) (h m (lookup-by_key k t e))

  -- A lookup passes over the first model where another one has the key.
  lookup-tail :
      (i k : Key) (n m : M) (t : Table M)
      → WellKeyed pk ((i, n) ∷ t)
      → lookup k t ≡ some m
      → lookup k ((i, n) ∷ t) ≡ some m
  unfolding find_one
  lookup-tail i k n m t w h = elim (Bool-cases (pk n == k)) [
    | inl e ↦
        let here : i ≡ k = w.0 ∙ beq_path (pk n) k e in
        let free = has_key-lookup k t w.2 ∙ ap is_some h in
        let taken = ap (λ (j : Key). has_key j t) (sym here) ∙ w.1 in absurd (cc (free, taken))
    | inr e ↦ rw (e, h)
  ]

  -- A condition on the model of one key: the lookup finds it, and the condition decides.
  pub find_one-at :
      (p q : M → Bool) (k : Key) (t : Table M)
      → WellKeyed pk t
      → ((m : M) → p m ≡ (by_key k m && q m))
      → find_one p t ≡ unless (λ m. not (q m)) (lookup k t)
  unfolding find_one
  find_one-at p q k [] w h = refl
  find_one-at p q k ((i, n) ∷ t) w h =
      let rest = find_one-at p q k t w.2 h in
      rw (h n) (elim (Bool-cases (pk n == k)) [
        | inr e ↦ rw e rest
        | inl e ↦ elim (Bool-cases (q n)) [
          | inl f ↦ rw (e, f) refl
          | inr f ↦
              let free : has_key k t ≡ false =
                subst (λ j. has_key j t ≡ false) (w.0 ∙ beq_path (pk n) k e) w.1 in
              rw (e, f) (rest ∙ ap (unless (λ m. not (q m))) (lookup-none k t w.2 free))
        ]
      ])

  -- A filter that holds of no model that a lookup finds selects nothing.
  pub select-none :
      (p : M → Bool) (t : Table M)
      → WellKeyed pk t
      → ((k : Key) (m : M) → lookup k t ≡ some m → p m ≡ false)
      → select p (values t) ≡ []
  unfolding find_one
  select-none p [] w h = refl
  select-none p ((i, n) ∷ t) w h =
      let first : p n ≡ false = h (pk n) n (rw (beq_self (pk n)) refl) in
      rw first (select-none p t w.2 (λ k m e. h k m (lookup-tail i k n m t w e)))

  -- What a filter selects is found under its own key.
  pub lookup-select :
      (p : M → Bool) (t : Table M)
      → WellKeyed pk t
      → All (λ m. (lookup (pk m) t ≡ some m) × (p m ≡ true)) (select p (values t))
  unfolding find_one
  lookup-select p [] w = tt
  lookup-select p ((i, n) ∷ t) w =
      let rest =
        All-mono (λ (m : M). (lookup (pk m) t ≡ some m) × (p m ≡ true))
          (λ (m : M). (lookup (pk m) ((i, n) ∷ t) ≡ some m) × (p m ≡ true)) (select p (values t))
          (λ m h. (lookup-tail i (pk m) n m t w h.0, h.1)) (lookup-select p t w.2) in
      elim (Bool-cases (p n)) [
        | inl e ↦ rw e ((rw (beq_self (pk n)) refl, e), rest)
        | inr e ↦ rw e rest
      ]

-- `delete` reports how many models went: those that were there are those that it leaves and those
-- that it counts.
pub count-delete :
    {M : Type 0} (p : M → Bool) (t : Table M)
    → count (λ _. true) (delete p t).0 + (delete p t).1 ≡ count (λ _. true) t
unfolding delete count keep_others
count-delete p [] = omega arith
count-delete p ((k, m) ∷ t) = ground (arith, count-delete p t)
