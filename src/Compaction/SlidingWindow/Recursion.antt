-- ===== src/Compaction/SlidingWindow/Recursion.antt =====
-- nexau/archs/main_sub/execution/middleware/context_compaction/compact_stratigies/sliding_window.py:
-- how often the summary of the summaries recurs.
use nex_au.Prelude.{
  ℕ, suc, ◌+◌, ◌≡◌, ◌≢◌, refl, inl, inr, Bool, false, ◌&&◌, List, [], ◌∷◌, arith, Bool-cases, ltb,
  leb, Option, none, some,
}
use nex_au.Prelude.Results.{Result, raise}
use nex_au.Prelude.Text.{Text}
use nex_au.History.Messages.{Message}
use nex_au.Compaction.{add_group, iterations_loop, group_into_iterations}
use nex_au.Compaction.SlidingWindow.{
  Summarizer, generate_summary, user_message, chunks_loop, split_into_chunks, add_summary,
  chunk_summaries, merged_text, merge_summaries, chunked_summary, SummaryError, out_of_fuel,
}

module _ (z : Summarizer) (limit : ℕ) where
  -- The merged message is a chunk by itself.
  split-merged :
      (t : Text) → split_into_chunks z limit (user_message z t ∷ []) ≡ (user_message z t ∷ []) ∷ []
  unfolding split_into_chunks group_into_iterations iterations_loop add_group chunks_loop
  split-merged t =
      let open_chunk : (ltb limit (0 + z.count_tokens (user_message z t ∷ [])) && false) ≡ false =
        go _ in
      rw open_chunk refl
    where
      go : (b : Bool) → (b && false) ≡ false
      go b = ground arith

  one_summary :
      (again : List Message → Result SummaryError Text) (o : Option Text)
      → merge_summaries z limit again (add_summary o []) ≢ raise out_of_fuel
  unfolding merge_summaries add_summary
  one_summary again none e = absurd (cc e)
  one_summary again (some s) e = absurd (cc e)

  one_summary-same :
      (again again' : List Message → Result SummaryError Text) (o : Option Text)
      → merge_summaries z limit again (add_summary o [])
        ≡ merge_summaries z limit again' (add_summary o [])
  unfolding merge_summaries add_summary
  one_summary-same again again' none = refl
  one_summary-same again again' (some s) = refl

  -- The summary of a merged message does not recur.
  summary-merged :
      (t : Text) (f g : ℕ)
      → chunked_summary (suc f) z limit (user_message z t ∷ [])
        ≡ chunked_summary (suc g) z limit (user_message z t ∷ [])
  unfolding chunked_summary chunk_summaries
  summary-merged t f g = rw (split-merged t) (
      one_summary-same (chunked_summary f z limit) (chunked_summary g z limit)
        (generate_summary z (user_message z t ∷ [])))

  summary_merged-fuel :
      (t : Text) (f : ℕ)
      → chunked_summary (suc f) z limit (user_message z t ∷ []) ≢ raise out_of_fuel
  unfolding chunked_summary chunk_summaries
  summary_merged-fuel t f =
      rw (split-merged t)
        (one_summary (chunked_summary f z limit) (generate_summary z (user_message z t ∷ [])))

  merge_summaries-same :
      (again again' : List Message → Result SummaryError Text) (ss : List Text)
      → ((t : Text) → again (user_message z t ∷ []) ≡ again' (user_message z t ∷ []))
      → ((t : Text) → again (user_message z t ∷ []) ≢ raise out_of_fuel)
      → (merge_summaries z limit again ss ≡ merge_summaries z limit again' ss)
        × (merge_summaries z limit again ss ≢ raise out_of_fuel)
  unfolding merge_summaries
  merge_summaries-same again again' [] h n = (refl, λ e. absurd (cc e))
  merge_summaries-same again again' (s ∷ []) h n = (refl, λ e. absurd (cc e))
  merge_summaries-same again again' (s ∷ t ∷ ss) h n =
      elim (Bool-cases
        (leb (z.count_tokens (user_message z (merged_text 0 (s ∷ t ∷ ss)) ∷ [])) limit)) [
          | inl e ↦ rw e (refl, λ f. absurd (cc f))
          | inr e ↦ rw e (h (merged_text 0 (s ∷ t ∷ ss)), n (merged_text 0 (s ∷ t ∷ ss)))
        ]

  -- `_chunked_summary` calls itself once at most, whatever the token counter and the model do: fuel
  -- for two calls gives the result of any more, and it is not used up.
  pub chunked_summary-twice :
      (ms : List Message) (fuel : ℕ)
      → (chunked_summary (suc (suc fuel)) z limit ms ≡ chunked_summary 2 z limit ms)
        × (chunked_summary (suc (suc fuel)) z limit ms ≢ raise out_of_fuel)
  unfolding chunked_summary
  chunked_summary-twice ms fuel =
      merge_summaries-same (chunked_summary (suc fuel) z limit) (chunked_summary 1 z limit)
        (chunk_summaries z (split_into_chunks z limit ms)) (λ t. summary-merged t fuel 0)
        (λ t. summary_merged-fuel t fuel)
