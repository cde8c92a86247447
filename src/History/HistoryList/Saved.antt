-- ===== src/History/HistoryList/Saved.antt =====
-- nexau/archs/main_sub/history_list.py with nexau/archs/session/agent_run_action_service.py: the log
-- behind a HistoryList, and the list of messages that it stands for.
use nex_au.Prelude.{
  append-nil, ℕ, suc, ◌<◌, ◌≡◌, refl, ap, sym, ◌∙◌, inl, inr, Bool, true, false, not, Option, List,
  [], ◌∷◌, ◌++◌, ◌==◌, Eq, arith, ltb, length, drop, select, All, All-select, All-behind,
  length-append, Bool-cases, beq_path, and-eq-true, or-eq-false, if◌then◌else◌, subst,
}
use nex_au.Prelude.Text.{Text}
use nex_au.History.Messages.{Message, is_reasoning_only, meaningful}
use nex_au.History.Log.{
  ActionKey, ActionRow, owned, taken, iteration_key, persist_append, persist_replace,
}
use nex_au.History.Load.Pages.{Descending}
use nex_au.History.Load.Fold.{fold_actions}
use nex_au.History.Load.Apply.{
  DistinctIds, NonSystem, NewIds, has_id, has_id-append, has_id-select, DistinctIds-append,
}
use nex_au.History.Load.Persist.{persist_append-fold, persist_replace-fold}
use nex_au.History.HistoryList.{
  nothing, append_messages, replace_messages, compute_fingerprints, matches_baseline,
  is_append_only, prepare_flush, persist_flush,
}

-- The agent's part of the log stands for the messages `saved`: its actions fold to them, but for
-- messages that are reasoning only, and to no other id.
abbrev pub Saved : ActionKey → List ActionRow → List Message → Type 0
Saved key log saved =
    Descending (select (owned key) log)
    × (meaningful (fold_actions key log) ≡ meaningful saved)
    × ((id : Text) → has_id id saved ≡ false → has_id id (fold_actions key log) ≡ false)

-- The time of a new row is behind those of the agent's rows.
abbrev pub Later : ActionKey → ℕ → List ActionRow → Type 0
Later key now log = All (λ r. r.created_at_ns < now) (select (owned key) log)

meaningful-append : (xs ys : List Message) → meaningful (xs ++ ys) ≡ meaningful xs ++ meaningful ys
unfolding meaningful
meaningful-append [] ys = refl
meaningful-append (x ∷ xs) ys = elim (Bool-cases (is_reasoning_only x)) [
  | inl e ↦ rw e (meaningful-append xs ys)
  | inr e ↦ rw e (ap (λ ws. x ∷ ws) (meaningful-append xs ys))
]

meaningful-meaningful : (xs : List Message) → meaningful (meaningful xs) ≡ meaningful xs
unfolding meaningful
meaningful-meaningful [] = refl
meaningful-meaningful (x ∷ xs) = elim (Bool-cases (is_reasoning_only x)) [
  | inl e ↦ rw e (meaningful-meaningful xs)
  | inr e ↦ rw (e, e, meaningful-meaningful xs) refl
]

NewIds-meaningful :
    (id_free : List Message) (saved xs : List Message)
    → ((id : Text) → has_id id saved ≡ false → has_id id id_free ≡ false)
    → NewIds saved xs
    → NewIds id_free (meaningful xs)
unfolding meaningful
NewIds-meaningful old saved xs f n =
    All-select (λ x. has_id x.id old ≡ false) (λ m. not (is_reasoning_only m)) xs (go xs n)
  where
    go : (ys : List Message) → NewIds saved ys → NewIds old ys
    go [] h = tt
    go (y ∷ ys) h = (f y.id h.0, go ys h.1)

has_id-meaningful :
    (id : Text) (xs : List Message) → has_id id xs ≡ false → has_id id (meaningful xs) ≡ false
unfolding meaningful
has_id-meaningful id xs h = has_id-select (λ m. not (is_reasoning_only m)) id xs h

module _ (key : ActionKey) (run_id : Text) (now : ℕ) (log : List ActionRow) (saved : List Message)
    (s : Saved key log saved) (later : Later key now log) where
  -- Behind the APPEND of new messages.
  Saved-append :
      (k : Option Text) (new : List Message)
      → taken k log ≡ false
      → NonSystem (saved ++ new)
      → DistinctIds (saved ++ new)
      → Saved key (persist_append key run_id now k new log).0 (saved ++ new)
  Saved-append k new free n x =
      let (fresh, distinct) = DistinctIds-append saved new x in
      let (d, folds) =
        persist_append-fold key run_id now log s.0 later k new free (All-behind _ saved new n)
          distinct (NewIds-meaningful (fold_actions key log) saved new s.2 fresh) in
      (
        d,
        ap meaningful folds
            ∙ meaningful-append (fold_actions key log) (meaningful new)
            ∙ rw (s.1, meaningful-meaningful new) (sym (meaningful-append saved new)),
        λ id h.
            let (old_free, new_free) =
              or-eq-false (has_id id saved) (has_id id new)
                (sym (has_id-append id saved new) ∙ h) in
            ap (has_id id) folds
            ∙ has_id-append id (fold_actions key log) (meaningful new)
            ∙ rw (s.2 id old_free) (has_id-meaningful id new new_free),
      )

  -- Behind a REPLACE.
  pub Saved-replace :
      (m : Message) (ms : List Message)
      → NonSystem (m ∷ ms)
      → DistinctIds (m ∷ ms)
      → Saved key (persist_replace key run_id now (m ∷ ms) log).0 (m ∷ ms)
  Saved-replace m ms n x =
      let (d, folds) = persist_replace-fold key run_id now log s.0 later m ms n x in
      (d, ap meaningful folds, λ id h. ap (has_id id) folds ∙ h)

module _ {F : Type 0} ⦃c : Eq F⦄ (fingerprint : Message → F) where
  length-fingerprints :
      (ms : List Message) → length (compute_fingerprints fingerprint ms) ≡ length ms
  length-fingerprints [] = refl
  length-fingerprints (m ∷ ms) = ap suc (length-fingerprints ms)

  append_only_parts :
      (saved current : List Message)
      → is_append_only fingerprint (compute_fingerprints fingerprint saved) current ≡ true
      → (ltb (length current) (length saved) ≡ false)
        × (matches_baseline fingerprint (compute_fingerprints fingerprint saved) current ≡ true)
  unfolding is_append_only
  append_only_parts saved current e =
      let (a, b) =
        and-eq-true (not (ltb (length current) (length (compute_fingerprints fingerprint saved))))
          (matches_baseline fingerprint (compute_fingerprints fingerprint saved) current) e in
      (subst (λ n. ltb (length current) n ≡ false) (length-fingerprints saved) (go _ a), b)
    where
      go : (b : Bool) → not b ≡ true → b ≡ false
      go b h = ground arith

  prepare-append :
      (saved current : List Message)
      → is_append_only fingerprint (compute_fingerprints fingerprint saved) current ≡ true
      → prepare_flush fingerprint (compute_fingerprints fingerprint saved) current ≡ (
          if ltb (length saved) (length current)
          then append_messages (drop (length saved) current)
          else nothing)
  unfolding prepare_flush
  prepare-append saved current e = rw (e, length-fingerprints saved) refl

  prepare-replace :
      (saved current : List Message)
      → is_append_only fingerprint (compute_fingerprints fingerprint saved) current ≡ false
      → prepare_flush fingerprint (compute_fingerprints fingerprint saved) current
        ≡ replace_messages current
  unfolding prepare_flush
  prepare-replace saved current e = rw e refl

  nothing_saved : is_append_only fingerprint [] [] ≡ true
  unfolding is_append_only matches_baseline
  nothing_saved = refl

  module _ (injective : (m n : Message) → fingerprint m ≡ fingerprint n → m ≡ n) where
    -- A list that matches the fingerprints of another begins with it.
    begins_with :
        (saved current : List Message)
        → ltb (length current) (length saved) ≡ false
        → matches_baseline fingerprint (compute_fingerprints fingerprint saved) current ≡ true
        → current ≡ saved ++ drop (length saved) current
    unfolding matches_baseline
    begins_with [] current h e = refl
    begins_with (b ∷ bs) [] h e = absurd (ground (arith, h))
    begins_with (b ∷ bs) (m ∷ ms) h e =
        let (first, rest) = and-eq-true (fingerprint m == fingerprint b) _ e in
        let shorter : ltb (length ms) (length bs) ≡ false = ground arith in
        let same : m ≡ b = injective m b (beq_path (fingerprint m) (fingerprint b) first) in
        ap (λ x. x ∷ ms) same ∙ ap (λ ws. b ∷ ws) (begins_with bs ms shorter rest)

    module _ (key : ActionKey) (run_id : Text) (iter_index : Option ℕ) (now : ℕ)
        (log : List ActionRow) (saved : List Message) (s : Saved key log saved)
        (later : Later key now log)
        (free : taken (iteration_key run_id iter_index) log ≡ false) where
      Saved-appended :
          (new : List Message)
          → NonSystem (saved ++ new)
          → DistinctIds (saved ++ new)
          → Saved key
              (persist_flush key run_id iter_index now
                (if ltb (length saved) (length (saved ++ new))
                  then append_messages new
                  else nothing)
                log)
              (saved ++ new)
      unfolding persist_flush
      Saved-appended [] n x =
          let e : ltb (length saved) (length (saved ++ [])) ≡ false =
            ground (arith, length-append saved []) in
          rw e (subst (Saved key log) (sym (append-nil saved)) s)
      Saved-appended (m ∷ ms) n x =
          let e : ltb (length saved) (length (saved ++ (m ∷ ms))) ≡ true =
            ground (arith, length-append saved (m ∷ ms)) in
          rw e (
            Saved-append key run_id now log saved s later (iteration_key run_id iter_index) (m ∷ ms)
              free n x)

      Saved-replaced :
          (current : List Message)
          → NonSystem current
          → DistinctIds current
          → (current ≡ [] → saved ≡ [])
          → is_append_only fingerprint (compute_fingerprints fingerprint saved) current ≡ false
          → Saved key
              (persist_flush key run_id iter_index now (replace_messages current) log)
              current
      unfolding persist_flush
      Saved-replaced [] n x left e =
          let none =
            ap (λ ws. is_append_only fingerprint (compute_fingerprints fingerprint ws) [])
              (left refl) in
          absurd (cc (none, nothing_saved, e))
      Saved-replaced (m ∷ ms) n x left e = Saved-replace key run_id now log saved s later m ms n x

      -- What a flush writes for the list `current` makes the log stand for it.
      pub Saved-flush :
          (current : List Message)
          → NonSystem current
          → DistinctIds current
          → (current ≡ [] → saved ≡ [])
          → Saved key
              (persist_flush key run_id iter_index now
                (prepare_flush fingerprint (compute_fingerprints fingerprint saved) current)
                log)
              current
      Saved-flush current n x left =
          elim (Bool-cases
            (is_append_only fingerprint (compute_fingerprints fingerprint saved) current)) [
              | inl e ↦
                  let (no_shorter, same) = append_only_parts saved current e in
                  let split = begins_with saved current no_shorter same in
                  let new = drop (length saved) current in
                  let grown =
                    Saved-appended new (subst NonSystem split n) (subst DistinctIds split x) in
                  subst (λ p. Saved key (persist_flush key run_id iter_index now p log) current)
                    (sym (prepare-append saved current e))
                    (subst
                      (λ ws.
                        Saved key
                          (persist_flush key run_id iter_index now
                            (if ltb (length saved) (length ws)
                              then append_messages new
                              else nothing)
                            log)
                          ws)
                      (sym split) grown)
              | inr e ↦
                  subst (λ p. Saved key (persist_flush key run_id iter_index now p log) current)
                    (sym (prepare-replace saved current e)) (Saved-replaced current n x left e)
            ]
