-- ===== src/History/Load/Rows.antt =====
-- nexau/archs/session/agent_run_action_service.py: `load_messages` as a function of the agent's rows.
use mathlib.Core.Path.{fun_ext}
use nex_au.Prelude.{
  ℕ, suc, ◌≤◌, ◌<◌, ◌≡◌, refl, ap, sym, ◌∙◌, ◌⊎◌, inl, inr, Bool, Option, none, some, List, [], ◌∷◌,
  ◌++◌, ◌==◌, nat_eq, list_eq, arith, ltb, length, select, select-and, All-behind, All-mono,
  Bool-cases, subst,
}
use nex_au.Prelude.Text.{Text}
use nex_au.History.Messages.{Message, meaningful}
use nex_au.History.Pairing.{ensure_tool_use_paired}
use nex_au.History.Log.{ActionKey, ActionRow, owned, before, earliest_ns, first_action_ns}
use nex_au.History.Load.{
  Scan, scan_page, settle, start, apply_appends, base_messages, rebuild, load_messages,
}
use nex_au.History.Load.Pages.{Descending, before_all, scan_pages-at_once}
use nex_au.History.Load.Alike.{kept, Beyond, SameFirst}

-- The first time of a run in the agent's rows.
pub first_of : List ActionRow → Text → Option ℕ
first_of rows run_id = earliest_ns (select (λ r. r.run_id == run_id) rows)

pub first_action_ns-owned :
    (key : ActionKey) (log : List ActionRow) (run_id : Text)
    → first_action_ns key run_id log ≡ first_of (select (owned key) log) run_id
unfolding first_action_ns first_of
first_action_ns-owned key log run_id =
    ap earliest_ns (select-and (owned key) (λ r. r.run_id == run_id) log)

abbrev pub scan_rows : List ActionRow → Scan
scan_rows rows = settle (scan_page (first_of rows) rows start)

-- What becomes of the actions that the scan keeps.
abbrev pub folded : List ActionRow × Option ActionRow → List Message
folded k = apply_appends k.0 (base_messages k.1)

length-select : {A : Type 0} (p : A → Bool) (xs : List A) → length (select p xs) ≤ length xs
length-select p [] = omega arith
length-select p (x ∷ xs) = ground (arith, length-select p xs)

-- The messages that `load_messages` returns are those that a scan of the agent's rows in a single
-- page gives, put in order, without those that are reasoning only, and with an answer to each call,
-- where no two rows of the agent have the same time.
pub load_messages-rows :
    (key : ActionKey) (log : List ActionRow)
    → Descending (select (owned key) log)
    → load_messages key log
      ≡ ensure_tool_use_paired (meaningful (folded (kept (scan_rows (select (owned key) log)))))
unfolding load_messages rebuild
load_messages-rows key log d =
    let short : length (select (owned key) log) < suc (length log) =
      omega (arith, length-select (owned key) log) in
    let same : (λ run_id. first_action_ns key run_id log) ≡ first_of (select (owned key) log) =
      fun_ext (first_action_ns-owned key log) in
    ap (λ s. ensure_tool_use_paired (meaningful (folded (kept s))))
      (scan_pages-at_once key 199 log d (suc (length log)) start short
        ∙ ap (λ first. settle (scan_page first (select (owned key) log) start)) same)

pub select_swap :
    (p q : ActionRow → Bool) (rs : List ActionRow) → select p (select q rs) ≡ select q (select p rs)
select_swap p q [] = refl
select_swap p q (r ∷ rs) = elim (Bool-cases (p r)) [
  | inl e ↦ elim (Bool-cases (q r)) [
    | inl f ↦ rw (e, f, e, select_swap p q rs) refl
    | inr f ↦ rw (e, f) (select_swap p q rs)
  ]
  | inr e ↦ elim (Bool-cases (q r)) [
    | inl f ↦ rw (f, e) (select_swap p q rs)
    | inr f ↦ rw (e, f) (select_swap p q rs)
  ]
]

-- The first time of a run, with one row more.
pub first_of-newer :
    (r : ActionRow) (rows : List ActionRow) (run_id : Text)
    → (first_of (r ∷ rows) run_id ≡ first_of rows run_id)
      ⊎ ((first_of rows run_id ≡ none) × (first_of (r ∷ rows) run_id ≡ some r.created_at_ns))
unfolding first_of earliest_ns
first_of-newer r rows run_id = elim (Bool-cases (r.run_id == run_id)) [
  | inr e ↦ inl (rw e refl)
  | inl e ↦ rw e (go (select (λ x. x.run_id == run_id) rows))
]
  where
    go :
        (xs : List ActionRow)
        → (earliest_ns (r ∷ xs) ≡ earliest_ns xs)
          ⊎ ((earliest_ns xs ≡ none) × (earliest_ns (r ∷ xs) ≡ some r.created_at_ns))
    go [] = inr (refl, refl)
    go (x ∷ xs) = inl refl

pub Descending-behind : (xs ys : List ActionRow) → Descending (xs ++ ys) → Descending ys
Descending-behind [] ys d = d
Descending-behind (x ∷ xs) ys d = Descending-behind xs ys d.1

-- The newer rows do not change how an older row's scan looks up a run.
pub SameFirst-newer :
    (newer older : List ActionRow)
    → Descending (newer ++ older)
    → SameFirst older (first_of (newer ++ older)) (first_of older)
SameFirst-newer [] older d run_id = inl refl
SameFirst-newer (r ∷ newer) older d run_id =
    go (first_of-newer r (newer ++ older) run_id) (SameFirst-newer newer older d.1 run_id)
  where
    none_beyond : {o : Option ℕ} → o ≡ none → Beyond older o
    none_beyond e = subst (Beyond older) (sym e) tt

    go :
        (first_of (r ∷ (newer ++ older)) run_id ≡ first_of (newer ++ older) run_id)
          ⊎ ((first_of (newer ++ older) run_id ≡ none)
              × (first_of (r ∷ (newer ++ older)) run_id ≡ some r.created_at_ns))
        → (first_of (newer ++ older) run_id ≡ first_of older run_id)
          ⊎ (Beyond older (first_of (newer ++ older) run_id) × Beyond older (first_of older run_id))
        → (first_of (r ∷ (newer ++ older)) run_id ≡ first_of older run_id)
          ⊎ (Beyond older (first_of (r ∷ (newer ++ older)) run_id)
              × Beyond older (first_of older run_id))
    go (inl e) (inl f) = inl (e ∙ f)
    go (inl e) (inr (b, b')) = inr (subst (Beyond older) (sym e) b, b')
    go (inr (n, e)) rest = inr (
      subst (Beyond older) (sym e)
          (All-behind (λ x. x.created_at_ns < r.created_at_ns) newer older d.0),
      elim rest [ inl f ↦ none_beyond (sym f ∙ n) | inr (b, b') ↦ b' ],
    )

-- The rows before a time are the older ones.
pub older_than :
    (c : ℕ) (rows : List ActionRow)
    → Descending rows
    → (newer : List ActionRow) × (rows ≡ newer ++ select (before (some c)) rows)
unfolding before
older_than c [] d = ([], refl)
older_than c (r ∷ rows) d = elim (Bool-cases (ltb r.created_at_ns c)) [
  | inr e ↦ let (newer, p) = older_than c rows d.1 in rw e (r ∷ newer, ap (λ ws. r ∷ ws) p)
  | inl e ↦
      let all =
        All-mono (λ x. x.created_at_ns < r.created_at_ns)
          (λ x. x.created_at_ns < (record r { created_at_ns = c }).created_at_ns) rows
          (λ x h. ground arith) d.0 in
      rw e ([], ap (λ ws. r ∷ ws) (sym (before_all (record r { created_at_ns = c }) rows all)))
]
