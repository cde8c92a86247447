-- ===== src/History/Load/Alike.antt =====
-- nexau/archs/session/agent_run_action_service.py: the scan of `load_messages`, where the times of
-- the runs that it looks up are those of a longer log.
use nex_au.Prelude.{
  ℕ, ◌<◌, ◌≡◌, refl, ap, sym, ◌∙◌, ◌⊎◌, inl, inr, false, ◌||◌, Option, none, some, List, [], ◌∷◌,
  nat_eq, list_eq, arith, All, All-mono, Bool-cases,
}
use nex_au.Prelude.Text.{Text}
use nex_au.History.Log.{ActionRow, RunActionType, append, undo, replace, run_start, run_end}
use nex_au.History.Load.{
  Scan, Visit, next, stop, undone, undo_target, earlier, undo_to, visit_type, visit, then_scan,
  scan_page, settle,
}

-- What a scan is for.
abbrev pub kept : Scan → List ActionRow × Option ActionRow
kept s = (s.appends, s.base_replace)

-- Two cutoffs that undo the same of the rows.
abbrev pub SameCutoff : List ActionRow → Option ℕ → Option ℕ → Type 0
SameCutoff rows o o' = All (λ r. undone o r ≡ undone o' r) rows

-- A time behind all of the rows.
abbrev pub Beyond : List ActionRow → Option ℕ → Type 0
Beyond rows none = Unit
Beyond rows (some n) = All (λ r. r.created_at_ns < n) rows

-- Two ways to look up the first time of a run that agree, or find a time behind all of the rows.
abbrev pub SameFirst : List ActionRow → (first first' : Text → Option ℕ) → Type 0
SameFirst rows first first' =
    (run_id : Text)
    → (first run_id ≡ first' run_id) ⊎ (Beyond rows (first run_id) × Beyond rows (first' run_id))

abbrev Alike : List ActionRow → Visit → Visit → Type 0
Alike rows (next s) (next s') = SameCutoff rows s.cutoff_ns s'.cutoff_ns × (kept s ≡ kept s')
Alike rows (stop s) (stop s') = kept s ≡ kept s'
Alike rows _ _ = ⊥

undone-earlier :
    (o t : Option ℕ) (r : ActionRow) → undone (earlier o t) r ≡ (undone o r || undone t r)
unfolding undone
undone-earlier none none r = refl
undone-earlier none (some n) r = refl
undone-earlier (some m) none r = ground arith
undone-earlier (some m) (some n) r = ground arith

pub undone-Beyond :
    (t : Option ℕ) (rows : List ActionRow) → Beyond rows t → All (λ r. undone t r ≡ false) rows
unfolding undone
undone-Beyond none [] h = tt
undone-Beyond none (r ∷ rows) h = (refl, undone-Beyond none rows tt)
undone-Beyond (some n) rows h =
    All-mono (λ r. r.created_at_ns < n) (λ r. undone (some n) r ≡ false) rows
      (λ r less. ground (arith, less)) h

SameCutoff-earlier :
    (rows : List ActionRow) (o o' t t' : Option ℕ)
    → SameCutoff rows o o'
    → (t ≡ t') ⊎ (Beyond rows t × Beyond rows t')
    → SameCutoff rows (earlier o t) (earlier o' t')
SameCutoff-earlier [] o o' t t' h b = tt
SameCutoff-earlier (r ∷ rows) o o' t t' h b = (
  undone-earlier o t r ∙ here b ∙ sym (undone-earlier o' t' r),
  SameCutoff-earlier rows o o' t t' h.1
      (elim b [ inl e ↦ inl e | inr f ↦ inr (behind t f.0, behind t' f.1) ]),
)
  where
    behind : (x : Option ℕ) → Beyond (r ∷ rows) x → Beyond rows x
    behind none f = tt
    behind (some n) f = f.1

    here :
        (t ≡ t') ⊎ (Beyond (r ∷ rows) t × Beyond (r ∷ rows) t')
        → (undone o r || undone t r) ≡ (undone o' r || undone t' r)
    here (inl e) = rw (h.0, e) refl
    here (inr (f, f')) =
        rw (h.0, (undone-Beyond t (r ∷ rows) f).0, (undone-Beyond t' (r ∷ rows) f').0) refl

module _ (first first' : Text → Option ℕ) where
  SameCutoff-undo_to :
      (rows : List ActionRow) (o o' : Option ℕ) (target : Option Text)
      → SameFirst rows first first'
      → SameCutoff rows o o'
      → SameCutoff rows (undo_to first target o) (undo_to first' target o')
  unfolding undo_to
  SameCutoff-undo_to rows o o' none f h = h
  SameCutoff-undo_to rows o o' (some run_id) f h =
      SameCutoff-earlier rows o o' (first run_id) (first' run_id) h (f run_id)

  visit_type-Alike :
      (type : RunActionType) (r : ActionRow) (rows : List ActionRow) (s s' : Scan)
      → SameFirst rows first first'
      → SameCutoff rows s.cutoff_ns s'.cutoff_ns
      → kept s ≡ kept s'
      → Alike rows (visit_type first type r s) (visit_type first' type r s')
  unfolding visit_type
  visit_type-Alike append r rows s s' f h k = (h, ap (λ x. (r ∷ x.0, x.1)) k)
  visit_type-Alike replace r rows s s' f h k = ap (λ x. (x.0, some r)) k
  visit_type-Alike undo r rows s s' f h k =
      (SameCutoff-undo_to rows s.cutoff_ns s'.cutoff_ns (undo_target r.undo_before_run_id) f h, k)
  visit_type-Alike run_start r rows s s' f h k = (h, k)
  visit_type-Alike run_end r rows s s' f h k = (h, k)

  visit-Alike :
      (r : ActionRow) (rows : List ActionRow) (s s' : Scan)
      → SameFirst rows first first'
      → SameCutoff (r ∷ rows) s.cutoff_ns s'.cutoff_ns
      → kept s ≡ kept s'
      → Alike rows (visit first r s) (visit first' r s')
  unfolding visit
  visit-Alike r rows s s' f h k = elim (Bool-cases (undone s'.cutoff_ns r)) [
    | inl e ↦ rw (h.0, e) (h.1, k)
    | inr e ↦ rw (h.0, e) (visit_type-Alike r.action_type r rows s s' f h.1 k)
  ]

  SameFirst-rest :
      (r : ActionRow) (rows : List ActionRow)
      → SameFirst (r ∷ rows) first first'
      → SameFirst rows first first'
  SameFirst-rest r rows f run_id = elim (f run_id) [
    | inl e ↦ inl e
    | inr (b, b') ↦ inr (behind (first run_id) b, behind (first' run_id) b')
  ]
    where
      behind : (x : Option ℕ) → Beyond (r ∷ rows) x → Beyond rows x
      behind none b = tt
      behind (some n) b = b.1

  -- The scan keeps the same actions.
  pub scan_page-Alike :
      (rows : List ActionRow) (s s' : Scan)
      → SameFirst rows first first'
      → SameCutoff rows s.cutoff_ns s'.cutoff_ns
      → kept s ≡ kept s'
      → kept (settle (scan_page first rows s)) ≡ kept (settle (scan_page first' rows s'))
  unfolding scan_page then_scan
  scan_page-Alike [] s s' f h k = k
  scan_page-Alike (r ∷ rows) s s' f h k =
      go (visit first r s) (visit first' r s')
        (visit-Alike r rows s s' (SameFirst-rest r rows f) h k)
        (λ u u' h' k'. scan_page-Alike rows u u' (SameFirst-rest r rows f) h' k')
    where
      go :
          (v v' : Visit)
          → Alike rows v v'
          → ((u u' : Scan)
              → SameCutoff rows u.cutoff_ns u'.cutoff_ns
              → kept u ≡ kept u'
              → kept (settle (scan_page first rows u)) ≡ kept (settle (scan_page first' rows u')))
          → kept (settle (then_scan v (scan_page first rows)))
            ≡ kept (settle (then_scan v' (scan_page first' rows)))
      go (next u) (next u') a rest = rest u u' a.0 a.1
      go (stop u) (stop u') a rest = a
      go (next u) (stop u') a rest = absurd a
      go (stop u) (next u') a rest = absurd a
