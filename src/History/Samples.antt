-- ===== src/History/Samples.antt =====
-- nexau/archs/main_sub/history_list.py and nexau/archs/session/agent_run_action_service.py: lists,
-- logs and messages to run the code on.
use nex_au.Prelude.{
  ℕ, ◌<◌, ◌≡◌, refl, true, none, some, List, [], ◌∷◌, nat_eq, list_eq, arith, length, select,
}
use nex_au.Prelude.Text.{Text, text}
use nex_au.Team.Slug.{decimal, decimal_from}
use nex_au.History.Messages.{
  Role, system, user, assistant, Block, new_text, reasoning_block, tool_use_block, Message,
  is_reasoning_only, meaningful, non_system,
}
use nex_au.History.Pairing.{ensure_tool_use_paired}
use nex_au.History.Pairing.Ids.{made}
use nex_au.History.Pairing.Paired.{
  Paired, SubList, ensure_tool_use_paired-Paired, ensure_tool_use_paired-again,
}
use nex_au.History.Log.{
  ActionKey, ActionRow, RunActionType, new_row, owned, taken, iteration_key, create_once,
  append_rest, replace_rest, persist_append, persist_replace, persist_undo, before, first_action_ns,
  earliest_ns,
}
use nex_au.History.Load.{scan_page, apply_appends, scan_pages, start, load_messages}
use nex_au.History.Load.Pages.{Descending, scan_at_once, scan_pages-at_once}
use nex_au.History.Load.Undo.{load_messages-undo}
use nex_au.History.Load.Fold.{fold_actions}
use nex_au.History.HistoryList.{
  HistoryList, new_history, append, replace_all, flush, prepare_flush, is_append_only,
  matches_baseline, persist_flush,
}
use nex_au.History.HistoryList.Saved.{Saved}
use nex_au.History.HistoryList.Refinement.{
  Call, append_call, flush_call, reload_call, compact_call, meaning, meanings, calls-Represents,
  Stored, call, calls, Fits, AllFit, Represents, calls-refine, flush-emptied,
}
use nex_au.History.Codec.{print, print-injective}

-- A fingerprint that a message can be read back from.
abbrev key : ActionKey
key = record { user_id = text "u"; session_id = text "s"; agent_id = text "a" }

abbrev says : (id : Text) → Role → List Block → Message
says id role blocks = record {
  id = id;
  role = role;
  content = blocks;
  metadata = text "{}";
  created_at = none;
}

abbrev prompt : Message
prompt = says (text "1") system (new_text (text "You are") ∷ [])

abbrev question : Message
question = says (text "2") user (new_text (text "Which day?") ∷ [])

abbrev call_date : Block
call_date =
    tool_use_block (record {
      id = text "c";
      name = text "date";
      input = text "{}";
      raw_input = some (text "{ }");
    })

abbrev thought : Block
thought =
    reasoning_block (record { id = none; text = text "Hm"; signature = none; redacted_data = none })

abbrev asks_tool : Message
asks_tool = says (text "3") assistant (call_date ∷ [])

abbrev thinks : Message
thinks = says (text "4") assistant (thought ∷ [])

abbrev summary : Message
summary = says (text "5") user (new_text (text "So far") ∷ [])

-- A list that is new, with a log that is empty.
abbrev fresh : Stored print
fresh = (new_history print key (text "r") true (prompt ∷ []), [])

-- A run with a flush for its first round, a reload of what it has saved, one of a message that is reasoning only, a compaction, and a
-- further message behind it.
abbrev run : List Call
run =
    append_call question
    ∷ append_call asks_tool
    ∷ flush_call (some 1) 10
    ∷ reload_call (prompt ∷ question ∷ asks_tool ∷ [])
    ∷ append_call thinks
    ∷ flush_call none 20
    ∷ compact_call 30 (prompt ∷ summary ∷ [])
    ∷ append_call question
    ∷ flush_call none 40
    ∷ []

fresh-Represents : Represents print fresh (prompt ∷ [], [])
unfolding new_history fold_actions scan_page apply_appends non_system owned meaningful
fresh-Represents = (refl, refl, refl, (tt, refl, λ id h. refl))

-- The first round by itself.
abbrev first_round : List Call
first_round = append_call question ∷ append_call asks_tool ∷ flush_call (some 1) 10 ∷ []

first_round-AllFit : AllFit print first_round fresh (prompt ∷ [], [])
unfolding AllFit Fits call meaning new_history append owned taken iteration_key decimal decimal_from
    non_system
first_round-AllFit = (tt, (tt, ((tt, refl, (refl, (refl, tt)), λ e. refl), tt)))

first_round-Saved :
    Saved
      (calls print first_round fresh).0.history_key
      (calls print first_round fresh).1
      (meanings first_round (prompt ∷ [], [])).1
first_round-Saved =
    (calls-Represents print print-injective first_round fresh (prompt ∷ [], []) fresh-Represents
      first_round-AllFit).3

run-AllFit : AllFit print run fresh (prompt ∷ [], [])
unfolding AllFit Fits call calls meaning meanings new_history append replace_all flush prepare_flush
    is_append_only matches_baseline persist_flush persist_append append_rest create_once
    persist_replace replace_rest owned taken iteration_key decimal decimal_from non_system
    meaningful is_reasoning_only
run-AllFit = (
  tt,
  (
    tt,
    (
      (tt, refl, (refl, (refl, tt)), λ e. refl),
      (
        first_round-Saved,
        (
          tt,
          (
            ((omega arith, tt), refl, (refl, (refl, (refl, tt))), λ e. absurd (cc e)),
            (
              ((omega arith, tt), (refl, tt), λ e. absurd (cc e)),
              (
                tt,
                (
                  ((omega arith, (omega arith, tt)), refl, (refl, (refl, tt)), λ e. absurd (cc e)),
                  tt,
                ),
              ),
            ),
          ),
        ),
      ),
    ),
  ),
)

calls-refine_example :
    ((calls print run fresh).0.items ≡ (meanings run (prompt ∷ [], [])).0)
    × (load_messages (calls print run fresh).0.history_key (calls print run fresh).1
        ≡ ensure_tool_use_paired (meaningful (meanings run (prompt ∷ [], [])).1))
calls-refine_example =
    calls-refine print print-injective run fresh (prompt ∷ [], []) fresh-Represents run-AllFit

-- Two runs, and an UNDO of the second one at the end of the log.
abbrev says_row : (run : Text) → (now : ℕ) → List Message → ActionRow
says_row run now ms = record (new_row key run now RunActionType.append) { append_messages = ms }

abbrev two_runs : List ActionRow
two_runs =
    says_row (text "second") 20 (asks_tool ∷ []) ∷ says_row (text "first") 10 (question ∷ []) ∷ []

undone-Descending :
    Descending (select (owned key) (persist_undo key (text "undo") 30 (text "second") two_runs))
unfolding owned persist_undo
undone-Descending = ((omega arith, (omega arith, tt)), ((omega arith, tt), (tt, tt)))

second_at : first_action_ns key (text "second") two_runs ≡ some 20
unfolding first_action_ns owned earliest_ns
second_at = refl

load_messages-undo_example :
    load_messages key (persist_undo key (text "undo") 30 (text "second") two_runs)
    ≡ load_messages key (select (before (some 20)) two_runs)
load_messages-undo_example =
    load_messages-undo key (text "undo") 30 (text "second") two_runs undone-Descending
      (λ e. absurd (cc e)) 20 second_at

two_runs-Descending : Descending (select (owned key) two_runs)
unfolding owned
two_runs-Descending = ((omega arith, tt), (tt, tt))

two_rows : length (select (owned key) two_runs) < 3
unfolding owned
two_rows = omega arith

-- A page of a single row.
scan_pages-at_once_example :
    scan_pages 3 key 1 two_runs none start ≡ scan_at_once key two_runs start
scan_pages-at_once_example = scan_pages-at_once key 0 two_runs two_runs-Descending 3 start two_rows

-- A call without an answer.
ensure_tool_use_paired-Paired_example :
    Paired (ensure_tool_use_paired (question ∷ asks_tool ∷ []))
    × SubList (question ∷ asks_tool ∷ []) (ensure_tool_use_paired (question ∷ asks_tool ∷ []))
    × (made (ensure_tool_use_paired (question ∷ asks_tool ∷ [])) ≡ made (question ∷ asks_tool ∷ []))
ensure_tool_use_paired-Paired_example = ensure_tool_use_paired-Paired (question ∷ asks_tool ∷ [])

ensure_tool_use_paired-again_example :
    ensure_tool_use_paired (ensure_tool_use_paired (question ∷ asks_tool ∷ []))
    ≡ ensure_tool_use_paired (question ∷ asks_tool ∷ [])
ensure_tool_use_paired-again_example = ensure_tool_use_paired-again (question ∷ asks_tool ∷ [])

abbrev emptied : HistoryList (List (List (List Text)))
emptied = record {
  items = prompt ∷ [];
  history_key = key;
  run_id = text "r";
  persistence_enabled = true;
  pending_messages = [];
  baseline_fingerprints = print question ∷ print asks_tool ∷ [];
}

emptied-items : non_system emptied.items ≡ []
unfolding non_system
emptied-items = refl

-- A list whose messages are all gone, with what was saved of it.
flush-emptied_example :
    ((flush print none 50 emptied two_runs).1 ≡ two_runs)
    × ((flush print none 50 emptied two_runs).0.baseline_fingerprints ≡ [])
flush-emptied_example = flush-emptied print none 50 emptied two_runs refl emptied-items
