-- ===== src/History/HistoryList.antt =====
-- nexau/archs/main_sub/history_list.py: HistoryList. What it schedules for the event loop is done at
-- once here, in the order in which it is scheduled.
pub mod Saved
pub mod Refinement
use nex_au.Prelude.{
  ℕ, Bool, true, false, not, ◌&&◌, ◌||◌, Option, none, some, List, [], ◌∷◌, ◌++◌, ◌==◌, Eq, ltb,
  length, map, drop, if◌then◌else◌,
}
use nex_au.Prelude.Text.{Text}
use nex_au.History.Messages.{Message, is_system, non_system}
use nex_au.History.Log.{ActionKey, ActionRow, iteration_key, persist_append, persist_replace}

-- The messages, and the fields that the methods use. `F` is the type of the fingerprints.
pub record HistoryList (F : Type 0) : Type 0 where
  pub items : List Message
  pub history_key : ActionKey
  pub run_id : Text
  pub persistence_enabled : Bool
  pub pending_messages : List Message
  pub baseline_fingerprints : List F

-- What `_prepare_flush` finds to be written.
pub data Payload : Type 0 where
  nothing : Payload
  append_messages : List Message → Payload
  replace_messages : List Message → Payload

-- `append` and `extend`
unfoldable pub append : {F : Type 0} → Message → HistoryList F → HistoryList F
append m h =
    let pending = h.pending_messages ++ (m ∷ []) in
    record h {
      items = h.items ++ (m ∷ []);
      pending_messages =
          if h.persistence_enabled && not (is_system m.role) then pending else h.pending_messages;
    }

pub extend : {F : Type 0} → List Message → HistoryList F → HistoryList F
extend ms h = record h {
  items = h.items ++ ms;
  pending_messages =
      if h.persistence_enabled then h.pending_messages ++ non_system ms else h.pending_messages;
}

pub has_pending_messages : {F : Type 0} → HistoryList F → Bool
has_pending_messages h = ltb 0 (length h.pending_messages)

-- `_persist_flush_async`: an exception of the service is logged.
unfoldable pub persist_flush :
    ActionKey
    → (run_id : Text) → (iter_index : Option ℕ) → (now : ℕ) → Payload
    → List ActionRow
    → List ActionRow
persist_flush key run_id iter_index now nothing log = log
persist_flush key run_id iter_index now (replace_messages []) log = log
persist_flush key run_id iter_index now (replace_messages (m ∷ ms)) log =
    (persist_replace key run_id now (m ∷ ms) log).0
persist_flush key run_id iter_index now (append_messages []) log = log
persist_flush key run_id iter_index now (append_messages (m ∷ ms)) log =
    (persist_append key run_id now (iteration_key run_id iter_index) (m ∷ ms) log).0

module _ {F : Type 0} ⦃c : Eq F⦄ (fingerprint : Message → F) where
  -- `_compute_fingerprints` of the messages that are not the system's.
  abbrev pub compute_fingerprints : List Message → List F
  compute_fingerprints ms = map fingerprint ms

  -- `__init__`
  unfoldable pub new_history :
      ActionKey → (run_id : Text) → (enabled : Bool) → List Message → HistoryList F
  new_history key run_id enabled ms = record {
    items = ms;
    history_key = key;
    run_id = run_id;
    persistence_enabled = enabled;
    pending_messages = [];
    baseline_fingerprints = compute_fingerprints (non_system ms);
  }

  -- `replace_all`; `typed` is `replace_extra is not None`, and `now` the time of the row that it writes.
  unfoldable pub replace_all :
      List Message
      → (update_baseline typed : Bool) → (now : ℕ) → HistoryList F
      → List ActionRow
      → HistoryList F × List ActionRow
  replace_all ms update_baseline typed now h log =
      let moved = compute_fingerprints (non_system ms) in
      let written = (persist_replace h.history_key h.run_id now ms log).0 in
      if h.persistence_enabled
      then (
        record h {
          items = ms;
          pending_messages = [];
          baseline_fingerprints =
              if update_baseline || typed then moved else h.baseline_fingerprints;
        },
        if typed then written else log,
      )
      else (record h { items = ms }, log)

  -- The loop of `_prepare_flush` over the baseline.
  unfoldable pub matches_baseline : List F → List Message → Bool
  matches_baseline [] ms = true
  matches_baseline (f ∷ fs) [] = true
  matches_baseline (f ∷ fs) (m ∷ ms) = fingerprint m == f && matches_baseline fs ms

  unfoldable pub is_append_only : List F → List Message → Bool
  is_append_only baseline current =
      not (ltb (length current) (length baseline)) && matches_baseline baseline current

  -- `_prepare_flush`; its third result is the second argument.
  unfoldable pub prepare_flush : List F → List Message → Payload
  prepare_flush baseline current =
      if is_append_only baseline current
      then (if ltb (length baseline) (length current)
          then append_messages (drop (length baseline) current)
          else nothing)
      else replace_messages current

  -- `flush` and `flush_async`
  unfoldable pub flush :
      (iter_index : Option ℕ)
      → (now : ℕ) → HistoryList F
      → List ActionRow
      → HistoryList F × List ActionRow
  flush iter_index now h log =
      let current = non_system h.items in
      let log' =
        persist_flush h.history_key h.run_id iter_index now
          (prepare_flush h.baseline_fingerprints current) log in
      if h.persistence_enabled
      then (
        record h { pending_messages = []; baseline_fingerprints = compute_fingerprints current },
        log',
      )
      else (h, log)

  -- `update_context` with a new run.
  pub update_context :
      (run_id : Option Text)
      → (now : ℕ) → HistoryList F
      → List ActionRow
      → HistoryList F × List ActionRow
  update_context none now h log = flush none now h log
  update_context (some run_id) now h log =
      let (h', log') = flush none now h log in (record h' { run_id = run_id }, log')
