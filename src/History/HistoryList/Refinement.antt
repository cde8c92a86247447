-- ===== src/History/HistoryList/Refinement.antt =====
-- nexau/archs/main_sub/history_list.py with nexau/archs/session/agent_run_action_service.py: what runs
-- of the methods of a HistoryList promise of its log.
use nex_au.Prelude.{
  ℕ, ◌≡◌, ◌≢◌, refl, ap, ◌∙◌, true, false, Option, List, [], ◌∷◌, ◌++◌, Eq, Bool-cases, inl, inr,
  ltb, length, arith,
}
use nex_au.History.Messages.{Message, meaningful, non_system}
use nex_au.History.Pairing.{ensure_tool_use_paired}
use nex_au.History.Log.{ActionRow, taken, iteration_key, persist_replace}
use nex_au.History.Load.{load_messages}
use nex_au.History.Load.Fold.{load_messages-fold}
use nex_au.History.Load.Apply.{DistinctIds, NonSystem}
use nex_au.History.Load.Persist.{non_system-NonSystem, persist_replace-non_system}
use nex_au.History.HistoryList.{
  HistoryList, is_append_only, prepare_flush, persist_flush, compute_fingerprints, append, extend,
  replace_all, flush,
}
use nex_au.History.HistoryList.Saved.{Saved, Later, Saved-replace, Saved-flush}

-- The calls of the methods; `now` is the time of the row that a call may write. `reload_call` is
-- `replace_all` with `update_baseline`, and `compact_call` with `replace_extra`.
pub data Call : Type 0 where
  append_call : Message → Call
  extend_call : List Message → Call
  replace_call : List Message → Call
  reload_call : List Message → Call
  compact_call : (now : ℕ) → List Message → Call
  flush_call : (iter_index : Option ℕ) → (now : ℕ) → Call

-- What the calls mean: the list, and the messages that are saved.
abbrev pub Abstract : Type 0
Abstract = List Message × List Message

unfoldable pub meaning : Call → Abstract → Abstract
meaning (append_call m) (items, saved) = (items ++ (m ∷ []), saved)
meaning (extend_call ms) (items, saved) = (items ++ ms, saved)
meaning (replace_call ms) (items, saved) = (ms, saved)
meaning (reload_call ms) (items, saved) = (ms, non_system ms)
meaning (compact_call now ms) (items, saved) = (ms, non_system ms)
meaning (flush_call iter_index now) (items, saved) = (items, non_system items)

unfoldable pub meanings : List Call → Abstract → Abstract
meanings [] a = a
meanings (c ∷ cs) a = meanings cs (meaning c a)

module _ {F : Type 0} ⦃c : Eq F⦄ (fingerprint : Message → F) where
  -- A list, and the log that it is written to.
  abbrev pub Stored : Type 0
  Stored = HistoryList F × List ActionRow

  unfoldable pub call : Call → Stored → Stored
  call (append_call m) (h, log) = (append m h, log)
  call (extend_call ms) (h, log) = (extend ms h, log)
  call (replace_call ms) (h, log) = replace_all fingerprint ms false false 0 h log
  call (reload_call ms) (h, log) = replace_all fingerprint ms true false 0 h log
  call (compact_call now ms) (h, log) = replace_all fingerprint ms false true now h log
  call (flush_call iter_index now) (h, log) = flush fingerprint iter_index now h log

  unfoldable pub calls : List Call → Stored → Stored
  calls [] s = s
  calls (c ∷ cs) s = calls cs (call c s)

  -- What a call is made with: a row gets a later time than those before it, and an idempotency key
  -- that is not taken; no two messages have one id; a flush does not find an empty list where there
  -- were messages; and a list that is reloaded is one that the log stands for already.
  unfoldable pub Fits : Call → Stored → Abstract → Type 0
  Fits (append_call m) s a = Unit
  Fits (extend_call ms) s a = Unit
  Fits (replace_call ms) s a = Unit
  Fits (reload_call ms) (h, log) a = Saved h.history_key log (non_system ms)
  Fits (compact_call now ms) (h, log) a =
      Later h.history_key now log × DistinctIds (non_system ms) × (non_system ms ≢ [])
  Fits (flush_call iter_index now) (h, log) (items, saved) =
      Later h.history_key now log
      × (taken (iteration_key h.run_id iter_index) log ≡ false)
      × DistinctIds (non_system items)
      × (non_system items ≡ [] → saved ≡ [])

  unfoldable pub AllFit : List Call → Stored → Abstract → Type 0
  AllFit [] s a = Unit
  AllFit (c ∷ cs) s a = Fits c s a × AllFit cs (call c s) (meaning c a)

  -- The list and its log stand for an abstract state.
  abbrev pub Represents : Stored → Abstract → Type 0
  Represents (h, log) (items, saved) =
      (h.items ≡ items)
      × (h.persistence_enabled ≡ true)
      × (h.baseline_fingerprints ≡ compute_fingerprints fingerprint saved)
      × Saved h.history_key log saved

  module _ (injective : (m n : Message) → fingerprint m ≡ fingerprint n → m ≡ n) where
    compact-Represents :
        (now : ℕ) (ms : List Message) (h : HistoryList F) (log : List ActionRow)
        (saved : List Message)
        → h.persistence_enabled ≡ true
        → Saved h.history_key log saved
        → Fits (compact_call now ms) (h, log) ([], saved)
        → Represents (replace_all fingerprint ms false true now h log) (ms, non_system ms)
    unfolding replace_all Fits
    compact-Represents now ms h log saved on s fits = rw on (
      refl,
      refl,
      refl,
      rw (persist_replace-non_system h.history_key h.run_id now ms log)
          (compacted (non_system ms) (non_system-NonSystem ms) fits.1 fits.2),
    )
      where
        compacted :
            (ws : List Message)
            → NonSystem ws
            → DistinctIds ws
            → ws ≢ []
            → Saved h.history_key (persist_replace h.history_key h.run_id now ws log).0 ws
        compacted [] n x some_left = absurd (some_left refl)
        compacted (w ∷ ws) n x some_left =
            Saved-replace h.history_key h.run_id now log saved s fits.0 w ws n x

    flush-Represents :
        (iter_index : Option ℕ) (now : ℕ) (s : Stored) (a : Abstract)
        → Represents s a
        → Fits (flush_call iter_index now) s a
        → Represents (flush fingerprint iter_index now s.0 s.1) (a.0, non_system a.0)
    unfolding flush Fits
    flush-Represents iter_index now (h, log) (items, saved) (e, on, base, s)
          (later, free, x, left) =
        rw (on, e, base)
          (
            refl,
            refl,
            refl,
            Saved-flush fingerprint injective h.history_key h.run_id iter_index now log saved s
                later free (non_system items) (non_system-NonSystem items) x left,
          )

    call-Represents :
        (k : Call) (s : Stored) (a : Abstract)
        → Represents s a
        → Fits k s a
        → Represents (call k s) (meaning k a)
    unfolding call meaning append extend replace_all Fits
    call-Represents (append_call m) (h, log) (items, saved) (e, on, base, s) f =
        (ap (λ ms. ms ++ (m ∷ [])) e, on, base, s)
    call-Represents (extend_call ms) (h, log) (items, saved) (e, on, base, s) f =
        (ap (λ xs. xs ++ ms) e, on, base, s)
    call-Represents (replace_call ms) (h, log) (items, saved) (e, on, base, s) f =
        rw on (refl, refl, base, s)
    call-Represents (reload_call ms) (h, log) (items, saved) (e, on, base, s) f =
        rw on (refl, refl, refl, f)
    call-Represents (compact_call now ms) (h, log) (items, saved) (e, on, base, s) f =
        compact-Represents now ms h log saved on s f
    call-Represents (flush_call iter_index now) (h, log) (items, saved) r f =
        flush-Represents iter_index now (h, log) (items, saved) r f

    pub calls-Represents :
        (ks : List Call) (s : Stored) (a : Abstract)
        → Represents s a
        → AllFit ks s a
        → Represents (calls ks s) (meanings ks a)
    unfolding calls meanings AllFit
    calls-Represents [] s a r f = r
    calls-Represents (k ∷ ks) s a r f =
        calls-Represents ks (call k s) (meaning k a) (call-Represents k s a r f.0) f.1

    -- Whatever calls of `append`, `extend`, `replace_all` and `flush` a HistoryList gets, replacements
    -- with `update_baseline` or `replace_extra` among them: it holds the list that the calls mean, and
    -- `load_messages` returns the messages that the last flush, compaction or reload saved or found
    -- saved, which are those of the list then that are not the system's, without those that are
    -- reasoning only, and with an answer to each call of a tool. It starts from a state that stands for
    -- what is saved, an empty list and log for example. (Fingerprints are assumed to tell messages
    -- apart; new rows to get later times than the agent's rows before, and idempotency keys that are
    -- not taken; the saved messages to have ids of their own; no compaction to leave nothing, no flush
    -- to find an empty list where there were saved messages, and a call with `update_baseline` and no
    -- `replace_extra` to be given messages that the log stands for already: its actions fold to them,
    -- but for those that are reasoning only, and to no other id.)
    pub calls-refine :
        (ks : List Call) (s : Stored) (a : Abstract)
        → Represents s a
        → AllFit ks s a
        → ((calls ks s).0.items ≡ (meanings ks a).0)
          × (load_messages (calls ks s).0.history_key (calls ks s).1
              ≡ ensure_tool_use_paired (meaningful (meanings ks a).1))
    calls-refine ks s a r f =
        let (items, _, _, saved) = calls-Represents ks s a r f in
        (
          items,
          load_messages-fold (calls ks s).0.history_key (calls ks s).1 saved.0
              ∙ ap ensure_tool_use_paired saved.1,
        )

  -- Where the list has no message but the system's, a flush writes nothing, whatever the baseline: the
  -- log stays as it is, while the baseline becomes empty.
  pub flush-emptied :
      (iter_index : Option ℕ) (now : ℕ) (h : HistoryList F) (log : List ActionRow)
      → h.persistence_enabled ≡ true
      → non_system h.items ≡ []
      → ((flush fingerprint iter_index now h log).1 ≡ log)
        × ((flush fingerprint iter_index now h log).0.baseline_fingerprints ≡ [])
  unfolding flush persist_flush prepare_flush
  flush-emptied iter_index now h log on e =
      rw (on, e)
        (elim (Bool-cases (is_append_only fingerprint h.baseline_fingerprints [])) [
          | inr f ↦ rw f (refl, refl)
          | inl f ↦ elim (Bool-cases (ltb (length h.baseline_fingerprints) 0)) [
            | inl g ↦ absurd (ground (arith, g))
            | inr g ↦ rw (f, g) (refl, refl)
          ]
        ])
