-- ===== src/Compaction/Samples.antt =====
-- nexau/archs/main_sub/execution/middleware/context_compaction/compact_stratigies: a context to compact.
use nex_au.Prelude.{suc, ◌<◌, ◌≡◌, ◌≢◌, true, false, none, some, List, [], ◌∷◌, ◌++◌, arith, length}
use nex_au.Prelude.Results.{raise}
use nex_au.Prelude.Text.{Text, text}
use nex_au.History.Messages.{
  Message, Role, system, user, assistant, tool, Block, new_text, tool_use_block, new_result,
}
use nex_au.History.Pairing.{seen_results, ensure_tool_use_paired}
use nex_au.History.Pairing.Ids.{made}
use nex_au.History.Pairing.Paired.{Paired}
use nex_au.Compaction.{
  Window, split_trailing, add_group, iterations_loop, group_into_iterations, groups_of, system_part,
  other_part, keep_count,
}
use nex_au.Compaction.Groups.{concat}
use nex_au.Compaction.SlidingWindow.{
  Summarizer, split_into_chunks, chunked_summary, out_of_fuel, generate_summary_safe, compact,
}
use nex_au.Compaction.SlidingWindow.Chunks.{Packed, split_into_chunks-Packed}
use nex_au.Compaction.SlidingWindow.Recursion.{chunked_summary-twice}
use nex_au.Compaction.SlidingWindow.Compacted.{WithSummary, compact-splits}
use nex_au.Compaction.ToolResults.{compact_tool_results, compact_tool_results-Paired}

abbrev window : Window
window = record { keep_system = true; keep_iterations = 1; keep_user_rounds = 0 }

abbrev says : (id : Text) → Role → List Block → Message
says id role blocks = record {
  id = id;
  role = role;
  content = blocks;
  metadata = text "{}";
  created_at = none;
}

abbrev asks : (id name : Text) → Block
asks id name = tool_use_block (record { id = id; name = name; input = text "{}"; raw_input = none })

abbrev context : List Message
context =
    says (text "1") system (new_text (text "You are") ∷ [])
    ∷ says (text "2") user (new_text (text "Which day?") ∷ [])
    ∷ says (text "3") assistant (asks (text "c") (text "date") ∷ [])
    ∷ says (text "4") tool (new_result (text "c") (text "Monday") false ∷ [])
    ∷ says (text "5") user (new_text (text "And the hour?") ∷ [])
    ∷ says (text "6") assistant (asks (text "d") (text "time") ∷ [])
    ∷ []

-- A token for each message, and a model that always answers.
abbrev summarizer : Summarizer
summarizer = record {
  count_tokens = λ ms. length ms;
  call_llm = λ ms. some (text "It is Monday");
  compact_prompt = text "Summarize";
  input_limit = 3;
  new_id = text "0";
  mark_summary = λ m. text "summary";
}

split_into_chunks-Packed_example :
    Packed summarizer 3 (group_into_iterations context) (split_into_chunks summarizer 3 context)
    × (concat (split_into_chunks summarizer 3 context) ≡ context)
split_into_chunks-Packed_example = split_into_chunks-Packed summarizer 3 context

chunked_summary-twice_example :
    (chunked_summary (suc (suc 5)) summarizer 3 context ≡ chunked_summary 2 summarizer 3 context)
    × (chunked_summary (suc (suc 5)) summarizer 3 context ≢ raise out_of_fuel)
chunked_summary-twice_example = chunked_summary-twice summarizer 3 context 5

two_groups : keep_count window < length (groups_of window (other_part window context))
unfolding keep_count groups_of other_part group_into_iterations iterations_loop split_trailing
    add_group
two_groups = omega arith

compact-splits_example :
    (old : List (List Message)) × (recent : List (List Message)) × (kept : List Message)
    × (groups_of window (other_part window context) ≡ old ++ recent)
    × (length recent ≡ keep_count window)
    × (context ≡ system_part window context ++ (concat old ++ concat recent))
    × (compact summarizer window context ≡ system_part window context ++ kept)
    × WithSummary summarizer
        (generate_summary_safe summarizer window (system_part window context ++ concat old)).0
        (concat recent)
        kept
compact-splits_example = compact-splits summarizer window context two_groups

compact_tool_results-Paired_example :
    (made (compact_tool_results window none context) ≡ made context)
    × (seen_results (compact_tool_results window none context) ≡ seen_results context)
    × Paired (compact_tool_results window none (ensure_tool_use_paired context))
compact_tool_results-Paired_example = compact_tool_results-Paired window none context
