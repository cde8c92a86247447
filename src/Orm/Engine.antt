-- ===== src/Orm/Engine.antt =====
-- nexau/archs/session/orm/memory_engine.py: one table of InMemoryDatabaseEngine, the dict from
-- primary keys to models in the order of insertion. Each method holds the engine's lock throughout,
-- so a method is one step.
pub mod Keys
pub mod Laws
pub mod Batches
use nex_au.Prelude.{
  ℕ, zero, suc, ◌+◌, ◌≡◌, refl, Bool, true, false, not, ◌||◌, Option, none, some, List, [], ◌∷◌,
  ◌++◌, ◌==◌, list_eq, length, drop, take, select, find_first, any, map, if◌then◌else◌,
}
use nex_au.Prelude.Results.{Result, ok, raise}
use nex_au.Orm.{Value, value_eq}

abbrev pub Key : Type 0
Key = List Value

abbrev pub Table : Type 0 → Type 0
Table M = List (Key × M)

-- `ValueError("Duplicate primary key: …")`
pub data EngineError : Type 0 where
  duplicate_primary_key : Key → EngineError

module _ {M : Type 0} where
  -- `table.values()`
  abbrev pub values : Table M → List M
  values [] = []
  values ((k, m) ∷ t) = m ∷ values t

  -- `pk in table`
  abbrev pub has_key : Key → Table M → Bool
  has_key k [] = false
  has_key k ((j, m) ∷ t) = (j == k) || has_key k t

  -- `table[pk] = model`: in place for a key that is there, at the end otherwise.
  unfoldable pub store : Key → M → Table M → Table M
  store k m [] = (k, m) ∷ []
  store k m ((j, n) ∷ t) = let rest = store k m t in if j == k then (j, m) ∷ t else (j, n) ∷ rest

  -- `find_first` with a filter that holds of the models that `p` accepts.
  unfoldable pub find_one : (M → Bool) → Table M → Option M
  find_one p t = find_first p (values t)

  -- `results[offset:]` and `results[:limit]`, each only where it is given and not 0.
  at_offset : Option ℕ → List M → List M
  at_offset none ms = ms
  at_offset (some n) ms = drop n ms

  at_limit : Option ℕ → List M → List M
  at_limit none ms = ms
  at_limit (some zero) ms = ms
  at_limit (some (suc n)) ms = take (suc n) ms

  -- `find_many`, without `order_by`.
  unfoldable pub find_many : (M → Bool) → (limit offset : Option ℕ) → Table M → List M
  unfolding at_offset at_limit
  find_many p limit offset t = at_limit limit (at_offset offset (select p (values t)))

  -- The table without the models that `p` accepts.
  unfoldable pub keep_others : (M → Bool) → Table M → Table M
  keep_others p [] = []
  keep_others p ((k, m) ∷ t) = let rest = keep_others p t in if p m then rest else (k, m) ∷ rest

  pub count : (M → Bool) → Table M → ℕ
  count p t = length (select p (values t))

  -- `delete`: the number of models that went, and the table.
  unfoldable pub delete : (M → Bool) → Table M → Table M × ℕ
  unfolding keep_others
  delete p t = (keep_others p t, length (select p (values t)))

  -- The loop of `create_many`, behind the check of one model.
  create_rest :
      (Table M → Table M × Result EngineError (Unit {0}))
      → Table M × Result EngineError M
      → Table M × Result EngineError (Unit {0})
  create_rest go (t, ok m) = go t
  create_rest go (t, raise e) = (t, raise e)

  module _ (pk : M → Key) where
    -- `create`
    unfoldable pub create : M → Table M → Table M × Result EngineError M
    unfolding store
    create m t =
        if has_key (pk m) t
        then (t, raise (duplicate_primary_key (pk m)))
        else (store (pk m) m t, ok m)

    -- `create_many`: the models before a duplicate stay.
    pub create_many : List M → Table M → Table M × Result EngineError (Unit {0})
    unfolding create create_rest
    create_many [] t = (t, ok tt)
    create_many (m ∷ ms) t = create_rest (create_many ms) (create m t)

    -- `update`
    unfoldable pub update : M → Table M → Table M
    unfolding store
    update m t = store (pk m) m t
