-- ===== src/Compaction/SlidingWindow.antt =====
-- nexau/archs/main_sub/execution/middleware/context_compaction/compact_stratigies/sliding_window.py:
-- SlidingWindowCompaction, by its synchronous methods, which the asynchronous ones repeat.
pub mod Chunks
pub mod Recursion
pub mod Compacted
use nex_au.Prelude.{
  ℕ, zero, suc, ◌+◌, ◌-◌, Bool, true, false, not, ◌&&◌, Option, none, some, List, [], ◌∷◌, ◌++◌,
  take, drop, reverse, ltb, leb, length, if◌then◌else◌,
}
use nex_au.Prelude.Results.{Result, ok, raise}
use nex_au.Prelude.Text.{Text, text, strip}
use nex_au.Team.Slug.{decimal}
use nex_au.History.Messages.{Message, Role, user, Block, text_block, new_text, is_system}
use nex_au.History.Pairing.{insert}
use nex_au.Compaction.{
  is_empty, add_group, group_into_iterations, Window, system_part, other_part, groups_of,
  keep_count,
}
use nex_au.Compaction.Groups.{concat}

-- What the strategy has of its surroundings: the token counter, the call of the model (none where it
-- raises), the prompt, `_summary_input_limit`, the id of a new message, and what becomes of the
-- metadata of a message that carries a summary.
pub record Summarizer : Type 0 where
  pub count_tokens : List Message → ℕ
  pub call_llm : List Message → Option Text
  pub compact_prompt : Text
  pub input_limit : ℕ
  pub new_id : Text
  pub mark_summary : Text → Text

-- `Message(role=Role.USER, content=[TextBlock(text=…)])`
abbrev pub user_message : Summarizer → Text → Message
user_message z t = record {
  id = z.new_id;
  role = user;
  content = new_text t ∷ [];
  metadata = text "{}";
  created_at = none;
}

-- `_generate_summary`
pub generate_summary : Summarizer → List Message → Option Text
generate_summary z ms = elim (z.call_llm (ms ++ (user_message z z.compact_prompt ∷ []))) [
  | none ↦ none
  | some t ↦ some (strip t)
]

-- The loop of `_split_into_chunks`.
pub chunks_loop :
    Summarizer
    → (limit : ℕ) → (iterations chunks : List (List Message)) → (current : List Message)
    → (tokens : ℕ) → List (List Message)
chunks_loop z limit [] chunks current tokens = add_group current chunks
chunks_loop z limit (it ∷ its) chunks current tokens =
    let n = z.count_tokens it in
    let full = chunks_loop z limit its (chunks ++ (current ∷ [])) it n in
    let grown = chunks_loop z limit its chunks (current ++ it) (tokens + n) in
    if ltb limit (tokens + n) && not (is_empty current) then full else grown

-- `_split_into_chunks`
pub split_into_chunks : Summarizer → (limit : ℕ) → List Message → List (List Message)
split_into_chunks z limit ms = chunks_loop z limit (group_into_iterations ms) [] [] 0

-- The summaries of the chunks; one that fails is skipped.
add_summary : Option Text → List Text → List Text
add_summary none ss = ss
add_summary (some s) ss = s ∷ ss

pub chunk_summaries : Summarizer → List (List Message) → List Text
unfolding add_summary
chunk_summaries z [] = []
chunk_summaries z (c ∷ cs) = add_summary (generate_summary z c) (chunk_summaries z cs)

-- "\n\n".join(f"[Part {i + 1}]: {s}" for i, s in enumerate(…))
pub merged_text : (i : ℕ) → List Text → Text
merged_text i [] = []
merged_text i (s ∷ []) = text "[Part " ++ decimal (suc i) ++ text "]: " ++ s
merged_text i (s ∷ t ∷ ss) =
    text "[Part "
    ++ decimal (suc i)
    ++ text "]: "
    ++ s
    ++ text "\n\n"
    ++ merged_text (suc i) (t ∷ ss)

pub data SummaryError : Type 0 where
  all_chunks_failed : SummaryError
  out_of_fuel : SummaryError

or_text : Option Text → Text → Text
or_text none t = t
or_text (some s) t = s

-- Behind the summaries of the chunks; `again` is the recursive call.
pub merge_summaries :
    Summarizer
    → (limit : ℕ) → (again : List Message → Result SummaryError Text) → List Text
    → Result SummaryError Text
unfolding or_text
merge_summaries z limit again [] = raise all_chunks_failed
merge_summaries z limit again (s ∷ []) = ok s
merge_summaries z limit again (s ∷ t ∷ ss) =
    let merged = merged_text 0 (s ∷ t ∷ ss) in
    let messages = user_message z merged ∷ [] in
    if leb (z.count_tokens messages) limit
    then ok (or_text (generate_summary z messages) merged)
    else again messages

-- `_chunked_summary`
pub chunked_summary :
    (fuel : ℕ) → Summarizer → (limit : ℕ) → List Message → Result SummaryError Text
chunked_summary zero z limit ms = raise out_of_fuel
chunked_summary (suc fuel) z limit ms =
    merge_summaries z limit (chunked_summary fuel z limit)
      (chunk_summaries z (split_into_chunks z limit ms))

-- `get_text_content`
pub text_content : List Block → Text
text_content [] = []
text_content (text_block b ∷ bs) = b.text ++ text_content bs
text_content (_ ∷ bs) = text_content bs

abbrev pub max_fallback_tokens : ℕ
max_fallback_tokens = 10240

-- The loop of `_hard_truncation_fallback`, which reads the messages from the newest to the oldest.
pub retain_loop :
    Summarizer → (at : ℕ) → (newest_first retained : List Message) → (tokens : ℕ) → List Message
retain_loop z at [] retained tokens = retained
retain_loop z at (m ∷ ms) retained tokens =
    let n = z.count_tokens (m ∷ []) in
    let further = retain_loop z at ms (insert at m retained) (tokens + n) in
    if ltb max_fallback_tokens (tokens + n) then retained else further

-- The tokens of a list message by message.
pub tokens_each : Summarizer → List Message → ℕ
tokens_each z [] = 0
tokens_each z (m ∷ ms) = z.count_tokens (m ∷ []) + tokens_each z ms

pub retained_messages : Summarizer → Window → List Message → List Message
retained_messages z w ms =
    let first = system_part w ms in
    retain_loop z (if w.keep_system then 1 else 0) (reverse ms) first (tokens_each z first)

-- "\n".join(…) of the texts that are not empty, stripped.
pub joined_texts : List Message → List Text
joined_texts [] = []
joined_texts (m ∷ ms) =
    let rest = joined_texts ms in
    if is_empty (text_content m.content) then rest else strip (text_content m.content) ∷ rest

join_lines : List Text → Text
join_lines [] = []
join_lines (t ∷ []) = t
join_lines (t ∷ u ∷ ts) = t ++ text "\n" ++ join_lines (u ∷ ts)

-- `_hard_truncation_fallback`
pub hard_truncation_fallback : Summarizer → Window → List Message → Text
unfolding join_lines
hard_truncation_fallback z w ms = join_lines (joined_texts (retained_messages z w ms))

-- A summary, and whether it is the fallback's.
or_fallback : Summarizer → Window → List Message → Option Text → Text × Bool
or_fallback z w ms none = (hard_truncation_fallback z w ms, true)
or_fallback z w ms (some s) = (s, false)

result_option : Result SummaryError Text → Option Text
result_option (ok s) = some s
result_option (raise e) = none

-- `_generate_summary_safe`
pub generate_summary_safe : Summarizer → Window → List Message → Text × Bool
unfolding or_fallback result_option
generate_summary_safe z w ms =
    if leb (z.count_tokens ms) z.input_limit
    then or_fallback z w ms (generate_summary z ms)
    else or_fallback z w ms (result_option (chunked_summary 2 z z.input_limit ms))

abbrev handoff_prefix : Text
handoff_prefix =
    text
      "Another language model started to solve this problem and produced a summary of the conversation so far. You also have access to the state of the tools that were used by that language model. Use this to build on the work that has already been done and avoid duplicating work. Here is the summary produced by the other language model; use the information in this summary to assist with your own analysis:"

-- `with_handoff_prefix`
pub with_handoff_prefix : Text → Text
with_handoff_prefix summary =
    let stripped = strip summary in
    if is_empty stripped then handoff_prefix else handoff_prefix ++ text "\n\n" ++ stripped

abbrev pub is_user : Role → Bool
is_user user = true
is_user _ = false

-- The kept message that the summary is merged into, and the one that carries it alone.
pub merged_message : Summarizer → Text → Message → Message
merged_message z summary m = record m {
  content =
      new_text (
        with_handoff_prefix summary
        ++ text " The user request for this round is: "
        ++ text_content m.content)
      ∷ [];
  metadata = z.mark_summary m.metadata;
}

pub summary_message : Summarizer → Text → Message
summary_message z summary = record (user_message z (with_handoff_prefix summary)) {
  metadata = z.mark_summary (text "{}");
}

-- `_inject_summary`, with what it appends to `result`.
pub inject_summary : Summarizer → List Message → Text → List Message
inject_summary z [] summary = summary_message z summary ∷ []
inject_summary z (m ∷ ms) summary =
    if is_user m.role then merged_message z summary m ∷ ms else summary_message z summary ∷ m ∷ ms

-- `compact`; `keep_count` is 1 at least, which `__init__` checks.
pub compact : Summarizer → Window → List Message → List Message
compact z w ms =
    let groups = groups_of w (other_part w ms) in
    let old = length groups - keep_count w in
    let (summary, fallback) =
      generate_summary_safe z w (system_part w ms ++ concat (take old groups)) in
    if leb (length groups) (keep_count w)
    then ms
    else system_part w ms ++ inject_summary z (concat (drop old groups)) summary

-- The checks of `__init__`.
pub data WindowError : Type 0 where
  both_given : WindowError
  no_iterations : WindowError

pub new_window :
    (keep_system : Bool) → (keep_iterations keep_user_rounds : ℕ) → Result WindowError Window
new_window s n r =
    if not (leb n 3 && leb 3 n) && ltb 0 r
    then raise both_given
    else if ltb n 1
    then raise no_iterations
    else ok (record { keep_system = s; keep_iterations = n; keep_user_rounds = r })
