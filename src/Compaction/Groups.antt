-- ===== src/Compaction/Groups.antt =====
-- nexau/archs/main_sub/execution/middleware/context_compaction/compact_stratigies: what the groups
-- make up.
use nex_au.Prelude.{
  ℕ, take, drop, take-append-drop, append_assoc, append-nil, ◌≡◌, ◌≢◌, refl, ap, sym, ◌∙◌, inl, inr,
  true, ◌&&◌, List, [], ◌∷◌, ◌++◌, All, All-append, Bool-cases, and-eq-true, ltb,
}
use nex_au.History.Messages.{Message, is_assistant, is_system}
use nex_au.Compaction.{
  is_prompt, is_empty, split_trailing, add_group, iterations_loop, group_into_iterations,
  ends_round, rounds_loop, group_into_user_rounds, Window, system_part, other_part, groups_of,
}

abbrev pub concat {ℓ} : {A : Type ℓ} → List (List A) → List A
concat [] = []
concat (xs ∷ xss) = xs ++ concat xss

pub concat-append {ℓ} :
    {A : Type ℓ} (xss yss : List (List A)) → concat (xss ++ yss) ≡ concat xss ++ concat yss
concat-append [] yss = refl
concat-append (xs ∷ xss) yss =
    ap (λ ws. xs ++ ws) (concat-append xss yss) ∙ sym (append_assoc xs (concat xss) (concat yss))

-- No group is empty.
abbrev pub Filled : List (List Message) → Type 0
Filled groups = All (λ g. g ≢ []) groups

pub is_empty-nil : {A : Type 0} (xs : List A) → is_empty xs ≡ true → xs ≡ []
is_empty-nil [] h = refl
is_empty-nil (x ∷ xs) h = cc

split_trailing-append : (ms : List Message) → (split_trailing ms).0 ++ (split_trailing ms).1 ≡ ms
unfolding split_trailing
split_trailing-append [] = refl
split_trailing-append (m ∷ ms) =
    elim (Bool-cases (is_empty (split_trailing ms).0 && is_prompt m.role)) [
      | inl e ↦
          let none_left = is_empty-nil (split_trailing ms).0 (and-eq-true _ _ e).0 in
          rw e (
            ap (λ ws. m ∷ ws)
              (ap (λ (l : List Message). l ++ (split_trailing ms).1) (sym none_left)
                ∙ split_trailing-append ms))
      | inr e ↦ rw e (ap (λ ws. m ∷ ws) (split_trailing-append ms))
    ]

-- One message more behind a list in two parts.
snoc {ℓ} :
    {A : Type ℓ} (gs cs : List A) (m : A) (ms : List A)
    → (gs ++ (cs ++ (m ∷ []))) ++ ms ≡ (gs ++ cs) ++ (m ∷ ms)
snoc gs cs m ms =
    ap (λ ws. ws ++ ms) (sym (append_assoc gs cs (m ∷ []))) ∙ append_assoc (gs ++ cs) (m ∷ []) ms

regroup {ℓ} :
    {A : Type ℓ} (gs left prefix : List A) (m : A) (ms : List A)
    → ((gs ++ left) ++ (prefix ++ (m ∷ []))) ++ ms ≡ (gs ++ (left ++ prefix)) ++ (m ∷ ms)
regroup gs left prefix m ms =
    snoc (gs ++ left) prefix m ms ∙ ap (λ ws. ws ++ (m ∷ ms)) (append_assoc gs left prefix)

pub concat-add_group :
    (g : List Message) (groups : List (List Message))
    → concat (add_group g groups) ≡ concat groups ++ g
unfolding add_group
concat-add_group [] groups = sym (append-nil (concat groups))
concat-add_group (m ∷ ms) groups =
    concat-append groups ((m ∷ ms) ∷ []) ∙ ap (λ ws. concat groups ++ ws) (append-nil (m ∷ ms))

add_group-Filled :
    (g : List Message) (groups : List (List Message)) → Filled groups → Filled (add_group g groups)
unfolding add_group
add_group-Filled [] groups f = f
add_group-Filled (m ∷ ms) groups f =
    All-append (λ g. g ≢ []) groups ((m ∷ ms) ∷ []) f (λ e. absurd (cc e), tt)

pub iterations_loop-Groups :
    (ms : List Message) (groups : List (List Message)) (current : List Message)
    → Filled groups
    → (concat (iterations_loop ms groups current) ≡ (concat groups ++ current) ++ ms)
      × Filled (iterations_loop ms groups current)
unfolding iterations_loop
iterations_loop-Groups [] groups current f = (
  concat-add_group current groups ∙ sym (append-nil (concat groups ++ current)),
  add_group-Filled current groups f,
)
iterations_loop-Groups (m ∷ ms) groups current f =
    let (left, prefix) = split_trailing current in
    let (started, filled) =
      iterations_loop-Groups ms (add_group left groups) (prefix ++ (m ∷ []))
        (add_group-Filled left groups f) in
    let (continued, filled') = iterations_loop-Groups ms groups (current ++ (m ∷ [])) f in
    elim (Bool-cases (is_assistant m.role)) [
      | inl e ↦ rw e (
        started
            ∙ ap (λ ws. (ws ++ (prefix ++ (m ∷ []))) ++ ms) (concat-add_group left groups)
            ∙ regroup (concat groups) left prefix m ms
            ∙ ap (λ ws. (concat groups ++ ws) ++ (m ∷ ms)) (split_trailing-append current),
        filled,
      )
      | inr e ↦ rw e (continued ∙ snoc (concat groups) current m ms, filled')
    ]

filled_snoc : (cs : List Message) (m : Message) → cs ++ (m ∷ []) ≢ []
filled_snoc [] m e = absurd (cc e)
filled_snoc (c ∷ cs) m e = absurd (cc e)

rounds_loop-Groups :
    (ms : List Message) (groups : List (List Message)) (current : List Message)
    → Filled groups
    → (concat (rounds_loop ms groups current) ≡ (concat groups ++ current) ++ ms)
      × Filled (rounds_loop ms groups current)
unfolding rounds_loop
rounds_loop-Groups [] groups current f = (
  concat-add_group current groups ∙ sym (append-nil (concat groups ++ current)),
  add_group-Filled current groups f,
)
rounds_loop-Groups (m ∷ ms) groups current f =
    let grown = current ++ (m ∷ []) in
    let (ended, filled) =
      rounds_loop-Groups ms (groups ++ (grown ∷ [])) []
        (All-append (λ g. g ≢ []) groups (grown ∷ []) f (filled_snoc current m, tt)) in
    let (continued, filled') = rounds_loop-Groups ms groups grown f in
    elim (Bool-cases (ends_round m)) [
      | inl e ↦ rw e (
        ended
            ∙ ap (λ ws. ws ++ ms)
                (append-nil (concat (groups ++ (grown ∷ [])))
                  ∙ concat-append groups (grown ∷ [])
                  ∙ ap (λ ws. concat groups ++ ws) (append-nil grown))
            ∙ snoc (concat groups) current m ms,
        filled,
      )
      | inr e ↦ rw e (continued ∙ snoc (concat groups) current m ms, filled')
    ]

-- The iterations of a list of messages, and its user rounds, are the list in consecutive groups: put
-- together again they are the list, and no group is empty.
pub groups_of-Groups :
    (w : Window) (ms : List Message) → (concat (groups_of w ms) ≡ ms) × Filled (groups_of w ms)
unfolding groups_of group_into_iterations group_into_user_rounds
groups_of-Groups w ms = elim (Bool-cases (ltb 0 w.keep_user_rounds)) [
  | inl e ↦ rw e (rounds_loop-Groups ms [] [] tt)
  | inr e ↦ rw e (iterations_loop-Groups ms [] [] tt)
]

pub parts-append : (w : Window) (ms : List Message) → system_part w ms ++ other_part w ms ≡ ms
unfolding system_part other_part
parts-append w [] = refl
parts-append w (m ∷ ms) = elim (Bool-cases (w.keep_system && is_system m.role)) [
  | inl e ↦ rw e refl
  | inr e ↦ rw e refl
]

-- The messages are the system's, those of the first groups and those of the others.
pub split_groups :
    (w : Window) (ms : List Message) (n : ℕ)
    → ms
      ≡ system_part w ms
        ++ (concat (take n (groups_of w (other_part w ms)))
            ++ concat (drop n (groups_of w (other_part w ms))))
split_groups w ms n =
    let groups = groups_of w (other_part w ms) in
    sym (parts-append w ms)
    ∙ ap (λ ws. system_part w ms ++ ws)
        (sym (groups_of-Groups w (other_part w ms)).0
          ∙ ap concat (sym (take-append-drop n groups))
          ∙ concat-append (take n groups) (drop n groups))
