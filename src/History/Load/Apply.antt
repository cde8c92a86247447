-- ===== src/History/Load/Apply.antt =====
-- nexau/archs/session/agent_run_action_service.py: `apply_messages` of messages with ids of their own.
use nex_au.Prelude.{
  append_assoc, append-nil, ◌≡◌, refl, ap, sym, ◌∙◌, inl, inr, Bool, false, ◌||◌, List, [], ◌∷◌,
  ◌++◌, ◌==◌, nat_eq, list_eq, arith, any, select, All, Bool-cases, beq_path, beq_self, or-eq-false,
}
use nex_au.Prelude.Text.{Text}
use nex_au.History.Messages.{Message, is_system}
use nex_au.History.Load.{put, apply_messages}

-- A message has the id.
abbrev pub has_id : Text → List Message → Bool
has_id id ms = any (λ m. m.id == id) ms

-- No two messages have one id.
abbrev pub DistinctIds : List Message → Type 0
DistinctIds [] = Unit
DistinctIds (m ∷ ms) = (has_id m.id ms ≡ false) × DistinctIds ms

abbrev pub NonSystem : List Message → Type 0
NonSystem ms = All (λ m. is_system m.role ≡ false) ms

-- The ids of `xs` are none of those of `ms`.
abbrev pub NewIds : List Message → List Message → Type 0
NewIds ms xs = All (λ x. has_id x.id ms ≡ false) xs

same_id : (a b : Text) → (a == b) ≡ false → (b == a) ≡ false
same_id a b h = elim (Bool-cases (b == a)) [
  | inr e ↦ e
  | inl e ↦ absurd (cc (ap (λ x. x == b) (sym (beq_path b a e)), beq_self b, h))
]

pub has_id-append :
    (id : Text) (xs ys : List Message) → has_id id (xs ++ ys) ≡ (has_id id xs || has_id id ys)
has_id-append id [] ys = refl
has_id-append id (x ∷ xs) ys =
    rw (has_id-append id xs ys) (assoc (x.id == id) (has_id id xs) (has_id id ys))
  where
    assoc : (a b c : Bool) → (a || (b || c)) ≡ ((a || b) || c)
    assoc a b c = ground arith

put-new : (m : Message) (ms : List Message) → has_id m.id ms ≡ false → put m ms ≡ ms ++ (m ∷ [])
unfolding put
put-new m [] h = refl
put-new m (x ∷ xs) h =
    let (other, rest) = or-eq-false (x.id == m.id) (has_id m.id xs) h in
    rw (other, put-new m xs rest) refl

-- Behind one more message of another id, the ids are new still.
NewIds-snoc :
    (m : Message) (ms xs : List Message)
    → has_id m.id xs ≡ false
    → NewIds ms xs
    → NewIds (ms ++ (m ∷ [])) xs
NewIds-snoc m ms [] h n = tt
NewIds-snoc m ms (x ∷ xs) h n =
    let (other, rest) = or-eq-false (x.id == m.id) (has_id m.id xs) h in
    (
      has_id-append x.id ms (m ∷ []) ∙ rw (n.0, same_id x.id m.id other) refl,
      NewIds-snoc m ms xs rest n.1,
    )

-- Messages with new and distinct ids are put at the end.
pub apply_messages-new :
    (xs ms : List Message)
    → NonSystem xs
    → DistinctIds xs
    → NewIds ms xs
    → apply_messages xs ms ≡ ms ++ xs
unfolding apply_messages
apply_messages-new [] ms s d n = sym (append-nil ms)
apply_messages-new (x ∷ xs) ms s d n =
    rw (s.0, put-new x ms n.0)
      (apply_messages-new xs (ms ++ (x ∷ [])) s.1 d.1 (NewIds-snoc x ms xs d.0 n.1)
        ∙ append_assoc ms (x ∷ []) xs)

-- The ids of the second part of a list are new to the first.
pub DistinctIds-append :
    (ms xs : List Message) → DistinctIds (ms ++ xs) → NewIds ms xs × DistinctIds xs
DistinctIds-append [] xs d = (all_new xs, d)
  where
    all_new : (ys : List Message) → NewIds [] ys
    all_new [] = tt
    all_new (y ∷ ys) = (refl, all_new ys)
DistinctIds-append (m ∷ ms) xs d =
    let (new, rest) = DistinctIds-append ms xs d.1 in
    let (_, other) =
      or-eq-false (has_id m.id ms) (has_id m.id xs) (sym (has_id-append m.id ms xs) ∙ d.0) in
    (go xs new other, rest)
  where
    go : (ys : List Message) → NewIds ms ys → has_id m.id ys ≡ false → NewIds (m ∷ ms) ys
    go [] n h = tt
    go (y ∷ ys) n h =
        let (other, rest) = or-eq-false (y.id == m.id) (has_id m.id ys) h in
        (rw (same_id y.id m.id other) n.0, go ys n.1 rest)

-- What is left of a list has no more ids.
pub has_id-select :
    (p : Message → Bool) (id : Text) (ms : List Message)
    → has_id id ms ≡ false
    → has_id id (select p ms) ≡ false
has_id-select p id [] h = refl
has_id-select p id (m ∷ ms) h =
    let (other, rest) = or-eq-false (m.id == id) (has_id id ms) h in
    elim (Bool-cases (p m)) [
      | inl e ↦ rw (e, other) (has_id-select p id ms rest)
      | inr e ↦ rw e (has_id-select p id ms rest)
    ]

pub DistinctIds-select :
    (p : Message → Bool) (ms : List Message) → DistinctIds ms → DistinctIds (select p ms)
DistinctIds-select p [] d = tt
DistinctIds-select p (m ∷ ms) d = elim (Bool-cases (p m)) [
  | inl e ↦ rw e (has_id-select p m.id ms d.0, DistinctIds-select p ms d.1)
  | inr e ↦ rw e (DistinctIds-select p ms d.1)
]
