-- ===== src/Storage/Writer/Account.antt =====
-- Nothing that was accepted is lost, reordered or batched beyond the limit.
use ultiproxy.Base.{
  append_nil, append_assoc, ◌≡◌, refl, ◌∙◌, sym, ap, Option, none, some, List, [], ◌∷◌, ◌++◌,
  length, if_both, ltb,
}
use ultiproxy.Storage.Writer.{
  Database, Phase, receiving, finished, draining, Writer, Event, enqueues, closes, works,
  WriteError, enqueue, close, flush, finish, receive, drain_more, drain, work, work_in, step, run,
}

module _ {A : Type 0} where
  -- What the worker holds.
  abbrev pub in_hand : Phase A → List A
  in_hand receiving = []
  in_hand finished = []
  in_hand (draining batch) = batch

  abbrev pub joined : List (List A) → List A
  joined [] = []
  joined (b ∷ bs) = b ++ joined bs

  -- All that was admitted so far, in the order of admission.
  abbrev pub admitted : Writer A → List A
  admitted w = joined w.batches ++ (in_hand w.phase ++ w.queue)

  -- The record that an event admits: that of an enqueue which returns nil.
  abbrev pub taken : Writer A → Event A → List A
  taken w (enqueues item) = elim (enqueue item w).1 [ none ↦ item ∷ [] | some e ↦ [] ]
  taken w closes = []
  taken w (works db) = []

  unfoldable pub accepted : Writer A → List (Event A) → List A
  accepted w [] = []
  accepted w (e ∷ es) = taken w e ++ accepted (step w e) es

  pub joined-append : (bs : List (List A)) (b : List A) → joined (bs ++ (b ∷ [])) ≡ joined bs ++ b
  joined-append [] b = append_nil b
  joined-append (c ∷ bs) b =
      ap (λ l. c ++ l) (joined-append bs b) ∙ sym (append_assoc c (joined bs) b)

  flush-joined :
      (db : Database A) (batch : List A) (w : Writer A) (q : List A)
      → joined (flush db batch w).batches ++ q ≡ joined w.batches ++ (batch ++ q)
  unfolding flush
  flush-joined db batch w q =
      ap (λ l. l ++ q) (joined-append w.batches batch) ∙ append_assoc (joined w.batches) batch q

  drain_more-admitted :
      (db : Database A) (batch q : List A) (w : Writer A)
      → w.queue ≡ q
      → admitted (drain_more db batch q w) ≡ joined w.batches ++ (batch ++ q)
  unfolding drain_more finish flush
  drain_more-admitted db batch (x ∷ q) w e =
      ap (λ l. joined w.batches ++ l) (append_assoc batch (x ∷ []) q)
  drain_more-admitted db batch [] w e =
      let k = flush-joined db batch w w.queue ∙ ap (λ q. joined w.batches ++ (batch ++ q)) e in
      if_both (λ v. admitted v ≡ joined w.batches ++ (batch ++ [])) w.closed
        (finish (flush db batch w)) (record (flush db batch w) { phase = receiving }) k k

  drain-admitted :
      (db : Database A) (batch : List A) (w : Writer A)
      → admitted (drain db batch w) ≡ joined w.batches ++ (batch ++ w.queue)
  unfolding drain flush
  drain-admitted db batch w =
      if_both (λ v. admitted v ≡ joined w.batches ++ (batch ++ w.queue))
        (ltb (length batch) w.batch_size) (drain_more db batch w.queue w)
        (record (flush db batch w) { phase = receiving })
        (drain_more-admitted db batch w.queue w refl) (flush-joined db batch w w.queue)

  receive-admitted :
      (q : List A) (w : Writer A)
      → w.queue ≡ q
      → in_hand w.phase ≡ []
      → admitted (receive q w) ≡ joined w.batches ++ q
  unfolding receive finish
  receive-admitted (x ∷ q) w e k = refl
  receive-admitted [] w e k =
      if_both (λ v. admitted v ≡ joined w.batches ++ []) w.closed (finish w) w
        (ap (λ q. joined w.batches ++ q) e) (rw (k, e))

  work_in-admitted :
      (db : Database A) (p : Phase A) (w : Writer A)
      → w.phase ≡ p
      → admitted (work_in db p w) ≡ joined w.batches ++ (in_hand p ++ w.queue)
  unfolding work_in
  work_in-admitted db receiving w e = receive-admitted w.queue w refl (ap in_hand e)
  work_in-admitted db (draining batch) w e = drain-admitted db batch w
  work_in-admitted db finished w e = ap (λ p. joined w.batches ++ (in_hand p ++ w.queue)) e

  enqueue-admitted :
      (item : A) (w : Writer A)
      → admitted (enqueue item w).0 ≡ admitted w ++ taken w (enqueues item)
  unfolding enqueue
  enqueue-admitted item w =
      let P : Writer A × Option WriteError → Type 0 =
        λ r. admitted r.0 ≡ admitted w ++ (elim r.1 [ none ↦ item ∷ [] | some e ↦ [] ]) in
      let same = sym (append_nil (admitted w)) in
      let before = joined w.batches in
      let grown = sym (
        append_assoc before (in_hand w.phase ++ w.queue) (item ∷ [])
        ∙ ap (λ l. before ++ l) (append_assoc (in_hand w.phase) w.queue (item ∷ []))) in
      if_both P w.closed _ _ same (if_both P (ltb (length w.queue) w.queue_cap) _ _ grown same)

  step-admitted : (w : Writer A) (e : Event A) → admitted (step w e) ≡ admitted w ++ taken w e
  unfolding step close work
  step-admitted w (enqueues item) = enqueue-admitted item w
  step-admitted w closes = sym (append_nil (admitted w))
  step-admitted w (works db) = work_in-admitted db w.phase w refl ∙ sym (append_nil (admitted w))

  -- After any events, in any order, what was batched, what the worker holds and what is queued
  -- are, in this order, what was there before and then the records accepted since, in the order of
  -- their acceptance: none is lost, repeated or overtaken.
  pub run-admitted :
      (w : Writer A) (es : List (Event A)) → admitted (run w es) ≡ admitted w ++ accepted w es
  unfolding run accepted
  run-admitted w [] = sym (append_nil (admitted w))
  run-admitted w (e ∷ es) =
      run-admitted (step w e) es
      ∙ ap (λ l. l ++ accepted (step w e) es) (step-admitted w e)
      ∙ append_assoc (admitted w) (taken w e) (accepted (step w e) es)
