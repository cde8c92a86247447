-- ===== src/History/Load/Pages.antt =====
-- nexau/archs/session/agent_run_action_service.py: `load_messages` page by page, and at once.
use nex_au.Prelude.{
  append_assoc, ℕ, zero, suc, ◌<◌, ◌≡◌, refl, ap, sym, ◌∙◌, true, false, Option, none, some, List,
  [], ◌∷◌, ◌++◌, arith, ltb, select, select-and, take, drop, length, length-drop, take-append-drop,
  All, subst,
}
use nex_au.History.Log.{
  ActionKey, ActionRow, owned, before, final, first_action_ns, scan_actions_desc,
}
use nex_au.History.Load.{
  Scan, Visit, next, stop, then_scan, scan_page, settle, after_page, behind_page, scan_pages,
}

-- The newest first, and no two at one time.
abbrev pub Descending : List ActionRow → Type 0
Descending [] = Unit
Descending (r ∷ rs) = All (λ x. x.created_at_ns < r.created_at_ns) rs × Descending rs

-- The scan in a single page.
abbrev pub scan_at_once : ActionKey → List ActionRow → Scan → Scan
scan_at_once key log s =
    settle (scan_page (λ run_id. first_action_ns key run_id log) (select (owned key) log) s)

pub before_all :
    (y : ActionRow) (zs : List ActionRow)
    → All (λ x. x.created_at_ns < y.created_at_ns) zs
    → select (before (some y.created_at_ns)) zs ≡ zs
unfolding before
before_all y [] h = refl
before_all y (z ∷ zs) h =
    let here : ltb z.created_at_ns y.created_at_ns ≡ true = ground (arith, h.0) in
    rw (here, before_all y zs h.1) refl

All-last :
    (x y : ActionRow) (xs zs : List ActionRow)
    → All (λ r. r.created_at_ns < x.created_at_ns) (xs ++ (y ∷ zs))
    → y.created_at_ns < x.created_at_ns
All-last x y [] zs h = h.0
All-last x y (w ∷ ws) zs h = All-last x y ws zs h.1

-- The rows behind one of the log are those before its time.
before-behind :
    (y : ActionRow) (xs zs : List ActionRow)
    → Descending (xs ++ (y ∷ zs))
    → select (before (some y.created_at_ns)) (xs ++ (y ∷ zs)) ≡ zs
unfolding before
before-behind y [] zs h =
    let here : ltb y.created_at_ns y.created_at_ns ≡ false = ground arith in
    rw here (before_all y zs h.0)
before-behind y (x ∷ xs) zs h =
    let later = All-last x y xs zs h.0 in
    let here : ltb x.created_at_ns y.created_at_ns ≡ false = ground (arith, later) in
    rw here (before-behind y xs zs h.1)

-- A page is some rows and its last one.
page-final :
    (r : ActionRow) (rs : List ActionRow)
    → (init : List ActionRow) × (r ∷ rs ≡ init ++ (final r rs ∷ []))
page-final r [] = ([], refl)
page-final r (q ∷ rs) = let (init, e) = page-final q rs in (r ∷ init, ap (λ ws. r ∷ ws) e)

after_page-then_scan :
    (v : Visit) (f : Scan → Scan) (g : Scan → Visit)
    → ((s : Scan) → f s ≡ settle (g s))
    → after_page v f ≡ settle (then_scan v g)
unfolding after_page then_scan
after_page-then_scan (next s) f g h = h s
after_page-then_scan (stop s) f g h = refl

then_scan-then_scan :
    (v : Visit) (f g : Scan → Visit)
    → then_scan (then_scan v f) g ≡ then_scan v (λ s. then_scan (f s) g)
unfolding then_scan
then_scan-then_scan (next s) f g = refl
then_scan-then_scan (stop s) f g = refl

then_scan-same :
    (v : Visit) (f g : Scan → Visit) → ((s : Scan) → f s ≡ g s) → then_scan v f ≡ then_scan v g
unfolding then_scan
then_scan-same (next s) f g h = h s
then_scan-same (stop s) f g h = refl

scan_page-append :
    (first : List ℕ → Option ℕ) (xs ys : List ActionRow) (s : Scan)
    → scan_page first (xs ++ ys) s ≡ then_scan (scan_page first xs s) (scan_page first ys)
unfolding scan_page then_scan
scan_page-append first [] ys s = refl
scan_page-append first (x ∷ xs) ys s =
    then_scan-same _ _ _ (scan_page-append first xs ys)
    ∙ sym (then_scan-then_scan _ (scan_page first xs) (scan_page first ys))

module _ (key : ActionKey) (n : ℕ) (log : List ActionRow)
    (desc : Descending (select (owned key) log)) where
  first : List ℕ → Option ℕ
  first run_id = first_action_ns key run_id log

  no_rows : (s : Scan) → s ≡ settle (scan_page first [] s)
  unfolding scan_page
  no_rows s = refl

  from_cursor :
      (fuel : ℕ) (cursor : Option ℕ) (xs rest : List ActionRow) (s : Scan)
      → select (before cursor) (select (owned key) log) ≡ rest
      → select (owned key) log ≡ xs ++ rest
      → length rest < fuel
      → scan_pages fuel key (suc n) log cursor s ≡ settle (scan_page first rest s)
  unfolding scan_pages behind_page scan_actions_desc first
  from_cursor zero cursor xs rest s e split less = absurd (omega (arith, less))
  from_cursor (suc fuel) cursor xs [] s e split less =
      ap (λ rows. behind_page first (scan_pages fuel key (suc n) log) (take (suc n) rows) s)
        (select-and (owned key) (before cursor) log ∙ e)
      ∙ no_rows s
  from_cursor (suc fuel) cursor xs (r ∷ rs) s e split less =
      let (init, page) = page-final r (take n rs) in
      let whole : r ∷ rs ≡ (r ∷ take n rs) ++ drop n rs =
        ap (λ ws. r ∷ ws) (sym (take-append-drop n rs)) in
      let parts = split ∙ ap (λ ws. xs ++ ws) whole in
      let last = final r (take n rs) in
      let at_last : select (owned key) log ≡ (xs ++ init) ++ (last ∷ drop n rs) =
        parts
        ∙ ap (λ ws. xs ++ (ws ++ drop n rs)) page
        ∙ ap (λ ws. xs ++ ws) (append_assoc init (last ∷ []) (drop n rs))
        ∙ sym (append_assoc xs init (last ∷ drop n rs)) in
      let behind : select (before (some last.created_at_ns)) (select (owned key) log) ≡ drop n rs =
        ap (select (before (some last.created_at_ns))) at_last
        ∙ before-behind last (xs ++ init) (drop n rs) (subst Descending at_last desc) in
      let shorter : length (drop n rs) < fuel = omega (arith, less, length-drop n rs) in
      ap (λ rows. behind_page first (scan_pages fuel key (suc n) log) (take (suc n) rows) s)
        (select-and (owned key) (before cursor) log ∙ e)
      ∙ after_page-then_scan _ _ (scan_page first (drop n rs)) (λ s'.
        from_cursor fuel (some last.created_at_ns) (xs ++ (r ∷ take n rs)) (drop n rs) s' behind
          (parts ∙ sym (append_assoc xs (r ∷ take n rs) (drop n rs))) shorter)
      ∙ ap settle (
          sym (scan_page-append first (r ∷ take n rs) (drop n rs) s)
          ∙ ap (λ ws. scan_page first ws s) (sym whole))

  select-all : (rows : List ActionRow) → select (before none) rows ≡ rows
  unfolding before
  select-all [] = refl
  select-all (r ∷ rs) = ap (λ ws. r ∷ ws) (select-all rs)

  -- Read in pages of any size, one row at least, the log gives the scan that it gives in a single
  -- page, where no two rows of the agent have the same time and the fuel is more than their number.
  pub scan_pages-at_once :
      (fuel : ℕ) (s : Scan)
      → length (select (owned key) log) < fuel
      → scan_pages fuel key (suc n) log none s ≡ scan_at_once key log s
  unfolding first
  scan_pages-at_once fuel s less =
      from_cursor fuel none [] (select (owned key) log) s (select-all (select (owned key) log)) refl
        less
