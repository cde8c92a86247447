-- ===== src/History/Load/Cutoff.antt =====
-- nexau/archs/session/agent_run_action_service.py: a scan that has a cutoff already.
use nex_au.Prelude.{
  ℕ, ◌<◌, ◌≡◌, refl, ap, ◌∙◌, inl, inr, true, false, Option, none, some, List, [], ◌∷◌, nat_eq,
  list_eq, arith, ltb, select, Bool-cases,
}
use nex_au.Prelude.Text.{Text}
use nex_au.History.Log.{ActionRow, RunActionType, append, undo, replace, run_start, run_end, before}
use nex_au.History.Load.{
  Scan, Visit, next, stop, undone, undo_target, earlier, undo_to, visit_type, visit, then_scan,
  scan_page, settle,
}
use nex_au.History.Load.Alike.{kept}

-- A scan that also undoes everything from a time on.
abbrev capped : ℕ → Scan → Scan
capped c s = record s { cutoff_ns = earlier (some c) s.cutoff_ns }

abbrev capped_visit : ℕ → Visit → Visit
capped_visit c (next s) = next (capped c s)
capped_visit c (stop s) = stop (capped c s)

earlier_assoc :
    (c : ℕ) (o t : Option ℕ) → earlier (earlier (some c) o) t ≡ earlier (some c) (earlier o t)
earlier_assoc c none none = refl
earlier_assoc c none (some n) = refl
earlier_assoc c (some m) none = refl
earlier_assoc c (some m) (some n) = ap some (omega arith)

undone-capped :
    (c : ℕ) (o : Option ℕ) (r : ActionRow)
    → r.created_at_ns < c
    → undone (earlier (some c) o) r ≡ undone o r
unfolding undone
undone-capped c none r h = ground arith
undone-capped c (some m) r h = ground arith

undone-late :
    (c : ℕ) (o : Option ℕ) (r : ActionRow)
    → ltb r.created_at_ns c ≡ false
    → undone (earlier (some c) o) r ≡ true
unfolding undone
undone-late c none r h = ground arith
undone-late c (some m) r h = ground arith

module _ (first : Text → Option ℕ) (c : ℕ) where
  undo_to-capped :
      (target : Option Text) (o : Option ℕ)
      → undo_to first target (earlier (some c) o) ≡ earlier (some c) (undo_to first target o)
  unfolding undo_to
  undo_to-capped none o = refl
  undo_to-capped (some run_id) o = earlier_assoc c o (first run_id)

  visit_type-capped :
      (type : RunActionType) (r : ActionRow) (s : Scan)
      → visit_type first type r (capped c s) ≡ capped_visit c (visit_type first type r s)
  unfolding visit_type
  visit_type-capped append r s = refl
  visit_type-capped replace r s = refl
  visit_type-capped undo r s =
      ap (λ o. next (record s { cutoff_ns = o }))
        (undo_to-capped (undo_target r.undo_before_run_id) s.cutoff_ns)
  visit_type-capped run_start r s = refl
  visit_type-capped run_end r s = refl

  visit-capped :
      (r : ActionRow) (s : Scan)
      → ltb r.created_at_ns c ≡ true
      → visit first r (capped c s) ≡ capped_visit c (visit first r s)
  unfolding visit
  visit-capped r s h =
      let same = undone-capped c s.cutoff_ns r (ground (arith, h)) in
      elim (Bool-cases (undone s.cutoff_ns r)) [
        | inl e ↦ rw (same, e) refl
        | inr e ↦ rw (same, e) (visit_type-capped r.action_type r s)
      ]

  then_scan-capped :
      (v : Visit) (go go' : Scan → Visit)
      → ((s : Scan) → go (capped c s) ≡ capped_visit c (go' s))
      → then_scan (capped_visit c v) go ≡ capped_visit c (then_scan v go')
  unfolding then_scan
  then_scan-capped (next s) go go' h = h s
  then_scan-capped (stop s) go go' h = refl

  visit-late :
      (r : ActionRow) (s : Scan) (go : Scan → Visit)
      → ltb r.created_at_ns c ≡ false
      → then_scan (visit first r (capped c s)) go ≡ go (capped c s)
  unfolding visit then_scan
  visit-late r s go e = rw (undone-late c s.cutoff_ns r e) refl

  -- With a cutoff, the scan is the one of the rows before it.
  pub scan_page-capped :
      (rows : List ActionRow) (s : Scan)
      → scan_page first rows (capped c s)
        ≡ capped_visit c (scan_page first (select (before (some c)) rows) s)
  unfolding scan_page before
  scan_page-capped [] s = refl
  scan_page-capped (r ∷ rows) s = elim (Bool-cases (ltb r.created_at_ns c)) [
    | inl e ↦ rw e (
        ap (λ v. then_scan v (scan_page first rows)) (visit-capped r s e)
        ∙ then_scan-capped (visit first r s) (scan_page first rows) _ (scan_page-capped rows))
    | inr e ↦ rw e (visit-late r s (scan_page first rows) e ∙ scan_page-capped rows s)
  ]

  pub kept-capped : (v : Visit) → kept (settle (capped_visit c v)) ≡ kept (settle v)
  kept-capped (next s) = refl
  kept-capped (stop s) = refl
