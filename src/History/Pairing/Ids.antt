-- ===== src/History/Pairing/Ids.antt =====
-- nexau/archs/session/agent_run_action_service.py: the ids that the repairs of a history see.
use nex_au.Prelude.{
  false, ◌&&◌, ℕ, zero, suc, ◌≡◌, refl, ap, sym, ◌∙◌, inl, inr, Bool, true, false, ◌&&◌, ◌||◌, List,
  [], ◌∷◌, ◌++◌, ◌==◌, nat_eq, list_eq, arith, contains, ltb, select, Bool-cases, beq_path, subst,
}
use nex_au.Prelude.Text.{Text}
use nex_au.History.Messages.{Message}
use nex_au.History.Pairing.{
  calls, answers, set_at, set_all, tool_use_at, seen_results, insert_sorted, sort_orphans,
  synthetic, insert, answer_all,
}

-- The ids of the calls in a list of messages.
unfoldable pub made : List Message → List Text
made [] = []
made (m ∷ ms) = calls m ++ made ms

abbrev pub keys : List (Text × ℕ) → List Text
keys [] = []
keys (o ∷ os) = o.0 ∷ keys os

or_assoc : (a b c : Bool) → ((a || b) || c) ≡ (a || (b || c))
or_assoc a b c = ground arith

or_swap : (a b c : Bool) → (a || (b || c)) ≡ (b || (a || c))
or_swap a b c = ground arith

or_self : (a b : Bool) → (a || b) ≡ (a || (a || b))
or_self a b = ground arith

contains-append :
    (xs ys : List Text) (id : Text) → contains (xs ++ ys) id ≡ (contains xs id || contains ys id)
contains-append [] ys id = refl
contains-append (x ∷ xs) ys id =
    rw (contains-append xs ys id) (sym (or_assoc (id == x) (contains xs id) (contains ys id)))

-- Step 1 keeps every call.
keys-set_at :
    (k id : Text) (i : ℕ) (d : List (Text × ℕ))
    → contains (keys (set_at k i d)) id ≡ ((id == k) || contains (keys d) id)
unfolding set_at
keys-set_at k id i [] = refl
keys-set_at k id i ((j, n) ∷ d) = elim (Bool-cases (j == k)) [
  | inl e ↦ rw e (
      subst
        (λ x.
          ((id == j) || contains (keys d) id) ≡ ((id == x) || ((id == j) || contains (keys d) id)))
        (beq_path j k e) (or_self (id == j) (contains (keys d) id)))
  | inr e ↦ rw (e, keys-set_at k id i d) (or_swap (id == j) (id == k) (contains (keys d) id))
]

keys-set_all :
    (ks : List Text) (id : Text) (i : ℕ) (d : List (Text × ℕ))
    → contains (keys (set_all ks i d)) id ≡ (contains ks id || contains (keys d) id)
unfolding set_all
keys-set_all [] id i d = refl
keys-set_all (k ∷ ks) id i d =
    keys-set_all ks id i (set_at k i d)
    ∙ rw (keys-set_at k id i d) (
        or_swap (contains ks id) (id == k) (contains (keys d) id)
        ∙ sym (or_assoc (id == k) (contains ks id) (contains (keys d) id)))

pub keys-tool_use_at :
    (ms : List Message) (id : Text) (i : ℕ) (d : List (Text × ℕ))
    → contains (keys (tool_use_at i ms d)) id ≡ (contains (made ms) id || contains (keys d) id)
unfolding tool_use_at made
keys-tool_use_at [] id i d = refl
keys-tool_use_at (m ∷ ms) id i d =
    keys-tool_use_at ms id (suc i) (set_all (calls m) i d)
    ∙ rw (keys-set_all (calls m) id i d, contains-append (calls m) (made ms) id)
        (or_swap (contains (made ms) id) (contains (calls m) id) (contains (keys d) id)
          ∙ sym (or_assoc (contains (calls m) id) (contains (made ms) id) (contains (keys d) id)))

-- What the choice and the order of the orphans do to their ids.
pub keys-select :
    (p : Text → Bool) (id : Text) (d : List (Text × ℕ))
    → contains (keys (select (λ o. p o.0) d)) id ≡ (contains (keys d) id && p id)
keys-select p id [] = refl
keys-select p id ((k, i) ∷ d) = elim (Bool-cases (id == k)) [
  | inl e ↦
      let same : p k ≡ p id = ap p (sym (beq_path id k e)) in
      elim (Bool-cases (p k)) [
        | inl f ↦ rw (f, e) (sym (sym same ∙ f))
        | inr f ↦ rw (f, e, keys-select p id d) (go (contains (keys d) id) (sym same ∙ f))
      ]
  | inr e ↦ elim (Bool-cases (p k)) [
    | inl f ↦ rw (f, e) (keys-select p id d)
    | inr f ↦ rw (f, e) (keys-select p id d)
  ]
]
  where
    go : (b : Bool) → p id ≡ false → (b && p id) ≡ p id
    go true h = refl
    go false h = sym h

keys-insert_sorted :
    (x : Text × ℕ) (id : Text) (d : List (Text × ℕ))
    → contains (keys (insert_sorted x d)) id ≡ ((id == x.0) || contains (keys d) id)
unfolding insert_sorted
keys-insert_sorted x id [] = refl
keys-insert_sorted x id (y ∷ d) = elim (Bool-cases (ltb x.1 y.1)) [
  | inl e ↦
      rw (e, keys-insert_sorted x id d) (or_swap (id == y.0) (id == x.0) (contains (keys d) id))
  | inr e ↦ rw e refl
]

pub keys-sort_orphans :
    (id : Text) (d : List (Text × ℕ)) → contains (keys (sort_orphans d)) id ≡ contains (keys d) id
unfolding sort_orphans
keys-sort_orphans id [] = refl
keys-sort_orphans id (x ∷ d) =
    keys-insert_sorted x id (sort_orphans d) ∙ rw (keys-sort_orphans id d) refl

-- What an insertion adds.
made-insert : (i : ℕ) (id : Text) (ms : List Message) → made (insert i (synthetic id) ms) ≡ made ms
unfolding insert made synthetic calls
made-insert zero id ms = refl
made-insert (suc i) id [] = refl
made-insert (suc i) id (m ∷ ms) = ap (λ x. calls m ++ x) (made-insert i id ms)

seen-insert :
    (i : ℕ) (k id : Text) (ms : List Message)
    → contains (seen_results (insert i (synthetic k) ms)) id
      ≡ ((id == k) || contains (seen_results ms) id)
unfolding insert seen_results synthetic answers
seen-insert zero k id ms = refl
seen-insert (suc i) k id [] = refl
seen-insert (suc i) k id (m ∷ ms) =
    contains-append (answers m) (seen_results (insert i (synthetic k) ms)) id
    ∙ rw (seen-insert i k id ms, contains-append (answers m) (seen_results ms) id)
        (or_swap (contains (answers m) id) (id == k) (contains (seen_results ms) id))

pub made-answer_all :
    (os : List (Text × ℕ)) (out : List Message) → made (answer_all os out) ≡ made out
unfolding answer_all
made-answer_all [] out = refl
made-answer_all ((id, i) ∷ os) out =
    made-answer_all os (insert (suc i) (synthetic id) out) ∙ made-insert (suc i) id out

pub seen-answer_all :
    (os : List (Text × ℕ)) (id : Text) (out : List Message)
    → contains (seen_results (answer_all os out)) id
      ≡ (contains (keys os) id || contains (seen_results out) id)
unfolding answer_all
seen-answer_all [] id out = refl
seen-answer_all ((k, i) ∷ os) id out =
    seen-answer_all os id (insert (suc i) (synthetic k) out)
    ∙ rw (seen-insert (suc i) k id out) (
        or_swap (contains (keys os) id) (id == k) (contains (seen_results out) id)
        ∙ sym (or_assoc (id == k) (contains (keys os) id) (contains (seen_results out) id)))
