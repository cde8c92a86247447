-- ===== src/History/Pairing/Paired.antt =====
-- nexau/archs/session/agent_run_action_service.py: which calls have their answers behind
-- `_ensure_tool_use_paired`.
use nex_au.Prelude.{
  beq_self, false, not, ◌&&◌, ℕ, zero, suc, ◌≡◌, refl, ap, ◌∙◌, Bool, true, false, ◌&&◌, ◌||◌, List,
  [], ◌∷◌, nat_eq, list_eq, arith, contains,
}
use nex_au.Prelude.Text.{Text}
use nex_au.History.Messages.{Message}
use nex_au.History.Pairing.{
  tool_use_at, seen_results, sort_orphans, synthetic, insert, answer_all, orphans,
  ensure_tool_use_paired,
}
use nex_au.History.Pairing.Ids.{
  made, keys, keys-tool_use_at, keys-select, keys-sort_orphans, made-answer_all, seen-answer_all,
}

-- A list that has lost some of its elements, in the order of those that are left.
pub data SubList {A : Type 0} : List A → List A → Type 0 where
  nil : SubList [] []
  skip : {x : A} {xs ys : List A} → SubList xs ys → SubList xs (x ∷ ys)
  keep : {x : A} {xs ys : List A} → SubList xs ys → SubList (x ∷ xs) (x ∷ ys)

SubList-self : {A : Type 0} (xs : List A) → SubList xs xs
SubList-self [] = nil
SubList-self (x ∷ xs) = keep (SubList-self xs)

SubList-insert :
    {A : Type 0} (i : ℕ) (m : A) (xs ys : List A) → SubList xs ys → SubList xs (insert i m ys)
unfolding insert
SubList-insert zero m xs ys s = skip s
SubList-insert (suc i) m xs [] s = skip s
SubList-insert (suc i) m xs (y ∷ ys) (skip s) = skip (SubList-insert i m xs ys s)
SubList-insert (suc i) m (x ∷ xs) (y ∷ ys) (keep s) = keep (SubList-insert i m xs ys s)

SubList-answer_all :
    (os : List (Text × ℕ)) (ms out : List Message) → SubList ms out → SubList ms (answer_all os out)
unfolding answer_all
SubList-answer_all [] ms out s = s
SubList-answer_all ((id, i) ∷ os) ms out s =
    SubList-answer_all os ms (insert (suc i) (synthetic id) out)
      (SubList-insert (suc i) (synthetic id) ms out s)

-- Every call has an answer.
abbrev pub Paired : List Message → Type 0
Paired ms = (id : Text) → contains (made ms) id ≡ true → contains (seen_results ms) id ≡ true

keys-orphans :
    (ms : List Message) (id : Text)
    → contains (keys (orphans ms)) id
      ≡ (contains (made ms) id && not (contains (seen_results ms) id))
unfolding orphans
keys-orphans ms id =
    keys-select (λ k. not (contains (seen_results ms) k)) id (tool_use_at 0 ms [])
    ∙ rw (keys-tool_use_at ms id 0 [])
        (go (contains (made ms) id) (not (contains (seen_results ms) id)))
  where
    go : (a b : Bool) → ((a || false) && b) ≡ (a && b)
    go a b = ground arith

seen-paired :
    (ms : List Message) (id : Text)
    → contains (seen_results (ensure_tool_use_paired ms)) id
      ≡ (contains (made ms) id || contains (seen_results ms) id)
unfolding ensure_tool_use_paired
seen-paired ms id =
    seen-answer_all (sort_orphans (orphans ms)) id ms
    ∙ rw (keys-sort_orphans id (orphans ms) ∙ keys-orphans ms id)
        (go (contains (made ms) id) (contains (seen_results ms) id))
  where
    go : (a b : Bool) → ((a && not b) || b) ≡ (a || b)
    go a b = ground arith

made-paired : (ms : List Message) → made (ensure_tool_use_paired ms) ≡ made ms
unfolding ensure_tool_use_paired
made-paired ms = made-answer_all (sort_orphans (orphans ms)) ms

-- In what `_ensure_tool_use_paired` returns, every call of an assistant's message has an answer in a
-- tool's message; the messages that it was given are all there, in their order; and it makes no
-- further call.
pub ensure_tool_use_paired-Paired :
    (ms : List Message)
    → Paired (ensure_tool_use_paired ms)
      × SubList ms (ensure_tool_use_paired ms)
      × (made (ensure_tool_use_paired ms) ≡ made ms)
unfolding ensure_tool_use_paired
ensure_tool_use_paired-Paired ms = (
  λ id h.
      let called : contains (made ms) id ≡ true = rw (made-paired ms) at h in
      seen-paired ms id ∙ ap (λ (b : Bool). b || contains (seen_results ms) id) called,
  SubList-answer_all (sort_orphans (orphans ms)) ms ms (SubList-self ms),
  made-paired ms,
)

no_keys : (os : List (Text × ℕ)) → ((id : Text) → contains (keys os) id ≡ false) → os ≡ []
no_keys [] h = refl
no_keys (o ∷ os) h =
    let found = ap (λ (b : Bool). b || contains (keys os) o.0) (beq_self o.0) in
    absurd (cc (found, h o.0))

-- Where every call has its answer, `_ensure_tool_use_paired` returns the list as it is.
pub ensure_tool_use_paired-unchanged :
    (ms : List Message) → Paired ms → ensure_tool_use_paired ms ≡ ms
unfolding ensure_tool_use_paired sort_orphans answer_all
ensure_tool_use_paired-unchanged ms h = rw none_left refl
  where
    go : (a b : Bool) → (a ≡ true → b ≡ true) → (a && not b) ≡ false
    go true b f = rw (f refl) refl
    go false b f = refl

    none_left : orphans ms ≡ []
    none_left = no_keys (orphans ms) (λ id.
        keys-orphans ms id ∙ go (contains (made ms) id) (contains (seen_results ms) id) (h id))

-- Done again, it changes nothing: the answers that it makes up are answers.
pub ensure_tool_use_paired-again :
    (ms : List Message)
    → ensure_tool_use_paired (ensure_tool_use_paired ms) ≡ ensure_tool_use_paired ms
ensure_tool_use_paired-again ms =
    ensure_tool_use_paired-unchanged (ensure_tool_use_paired ms)
      (ensure_tool_use_paired-Paired ms).0
