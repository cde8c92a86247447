-- ===== src/History/Load.antt =====
-- nexau/archs/session/agent_run_action_service.py: `load_messages`.
pub mod Pages
pub mod Alike
pub mod Rows
pub mod Cutoff
pub mod Undo
pub mod Fold
pub mod Apply
pub mod Persist
use nex_au.Prelude.{
  ℕ, zero, suc, min, Bool, false, Option, none, some, List, [], ◌∷◌, ◌==◌, nat_eq, list_eq, leb,
  length, if◌then◌else◌,
}
use nex_au.Prelude.Text.{Text}
use nex_au.History.Messages.{Message, is_system, meaningful}
use nex_au.History.Log.{
  ActionKey, ActionRow, RunActionType, append, undo, replace, final, first_action_ns,
  scan_actions_desc,
}
use nex_au.History.Pairing.{ensure_tool_use_paired}

-- The variables of the scan. The rows of APPEND actions are kept in the order of
-- `reversed(appends_desc)`, the earliest first.
pub record Scan : Type 0 where
  pub cutoff_ns : Option ℕ
  pub appends : List ActionRow
  pub base_replace : Option ActionRow

-- The body of the loop over a page comes to its end, or to `break`.
pub data Visit : Type 0 where
  next : Scan → Visit
  stop : Scan → Visit

-- `cutoff_ns is not None and int(action.created_at_ns) >= cutoff_ns`
pub undone : Option ℕ → ActionRow → Bool
undone none r = false
undone (some cutoff) r = leb cutoff r.created_at_ns

-- The run that an UNDO names; an empty name is none.
pub undo_target : Option Text → Option Text
undo_target none = none
undo_target (some []) = none
undo_target (some (c ∷ cs)) = some (c ∷ cs)

-- An UNDO's target was found at a time, or not at all.
abbrev pub earlier : Option ℕ → Option ℕ → Option ℕ
earlier cutoff none = cutoff
earlier none (some first) = some first
earlier (some cutoff) (some first) = some (min cutoff first)

pub undo_to : (Text → Option ℕ) → Option Text → Option ℕ → Option ℕ
undo_to first none cutoff = cutoff
undo_to first (some run_id) cutoff = earlier cutoff (first run_id)

pub visit_type : (Text → Option ℕ) → RunActionType → ActionRow → Scan → Visit
unfolding undo_target undo_to
visit_type first undo r s =
    next (record s { cutoff_ns = undo_to first (undo_target r.undo_before_run_id) s.cutoff_ns })
visit_type first replace r s = stop (record s { base_replace = some r })
visit_type first append r s = next (record s { appends = r ∷ s.appends })
visit_type first _ r s = next s

-- The body of the loop. `first` is `_first_action_ns_of_run`.
pub visit : (Text → Option ℕ) → ActionRow → Scan → Visit
unfolding visit_type
visit first r s = if undone s.cutoff_ns r then next s else visit_type first r.action_type r s

pub then_scan : Visit → (Scan → Visit) → Visit
then_scan (next s) go = go s
then_scan (stop s) go = stop s

-- The loop over a page.
unfoldable pub scan_page : (Text → Option ℕ) → List ActionRow → Scan → Visit
unfolding then_scan
scan_page first [] s = next s
scan_page first (r ∷ rs) s = then_scan (visit first r s) (scan_page first rs)

abbrev pub settle : Visit → Scan
settle (next s) = s
settle (stop s) = s

-- Behind a page: `break` ends the loop over the pages, too.
pub after_page : Visit → (Scan → Scan) → Scan
after_page (next s) go = go s
after_page (stop s) go = s

-- The end of the loop's body: `not page` ends the loop, too.
behind_page : (Text → Option ℕ) → (Option ℕ → Scan → Scan) → List ActionRow → Scan → Scan
unfolding after_page
behind_page first go [] s = s
behind_page first go (r ∷ rs) s =
    after_page (scan_page first (r ∷ rs) s) (go (some (final r rs).created_at_ns))

-- The loop over the pages.
pub scan_pages : (fuel : ℕ) → ActionKey → (page_size : ℕ) → List ActionRow → Option ℕ → Scan → Scan
unfolding behind_page
scan_pages zero key size log cursor s = s
scan_pages (suc fuel) key size log cursor s =
    behind_page (λ run_id. first_action_ns key run_id log) (scan_pages fuel key size log)
      (scan_actions_desc key size cursor log) s

abbrev pub start : Scan
start = record { cutoff_ns = none; appends = []; base_replace = none }

-- A message that is in the list already, by its id, is put in the old one's place; else it is put
-- at the end.
pub put : Message → List Message → List Message
put m [] = m ∷ []
put m (x ∷ xs) = let rest = put m xs in if x.id == m.id then m ∷ xs else x ∷ rest

-- `apply_messages`
pub apply_messages : List Message → List Message → List Message
apply_messages [] ms = ms
apply_messages (x ∷ xs) ms =
    if is_system x.role then apply_messages xs ms else apply_messages xs (put x ms)

abbrev pub base_messages : Option ActionRow → List Message
base_messages none = []
base_messages (some r) = apply_messages r.replace_messages []

unfoldable pub apply_appends : List ActionRow → List Message → List Message
apply_appends [] ms = ms
apply_appends (r ∷ rs) ms = apply_appends rs (apply_messages r.append_messages ms)

-- The messages of the actions that the scan has kept.
pub rebuild : Scan → List Message
unfolding apply_appends
rebuild s = apply_appends s.appends (base_messages s.base_replace)

abbrev pub page_size : ℕ
page_size = 200

-- `load_messages`. Each page but the last moves the cursor behind one row at least.
pub load_messages : ActionKey → List ActionRow → List Message
load_messages key log =
    ensure_tool_use_paired
      (meaningful (rebuild (scan_pages (suc (length log)) key page_size log none start)))
