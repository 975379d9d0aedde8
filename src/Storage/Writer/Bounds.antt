-- ===== src/Storage/Writer/Bounds.antt =====
-- The bounds of the queue and of the batches.
use ultiproxy.Base.{
  ℕ, ◌≤◌, ◌<◌, ◌≡◌, refl, subst, Option, List, [], ◌∷◌, ◌++◌, length, length-append, if◌then◌else◌,
  if_both, if_cases, ltb, arith,
}
use ultiproxy.Storage.Writer.{
  Database, Phase, receiving, finished, draining, Writer, Event, enqueues, closes, works,
  WriteError, enqueue, close, flush, finish, receive, drain_more, drain, work, work_in, step, run,
}

module _ {A : Type 0} where
  -- Not empty, and of at most `size` records, or of one if the size is 0.
  abbrev pub Fits : ℕ → List A → Type 0
  Fits size batch = (1 ≤ length batch) × (length batch ≤ (if ltb 1 size then size else 1))

  abbrev pub AllFit : ℕ → List (List A) → Type 0
  AllFit size [] = Unit
  AllFit size (b ∷ bs) = Fits size b × AllFit size bs

  abbrev pub HandFits : ℕ → Phase A → Type 0
  HandFits size receiving = Unit
  HandFits size finished = Unit
  HandFits size (draining batch) = Fits size batch

  pub record IsBounded (w : Writer A) : Type 0 where
    pub queue_bound : length w.queue ≤ w.queue_cap
    pub batches_fit : AllFit w.batch_size w.batches
    pub hand_fits : HandFits w.batch_size w.phase

  AllFit-append :
      (n : ℕ) (bs : List (List A)) (b : List A) → AllFit n bs → Fits n b → AllFit n (bs ++ (b ∷ []))
  AllFit-append n [] b h f = (f, tt)
  AllFit-append n (c ∷ bs) b (k, h) f = (k, AllFit-append n bs b h f)

  flushed-IsBounded :
      (db : Database A) (batch : List A) (p : Phase A) (w : Writer A)
      → HandFits w.batch_size p
      → Fits w.batch_size batch
      → IsBounded w
      → IsBounded (record (flush db batch w) { phase = p })
  unfolding flush
  flushed-IsBounded db batch p w k f h = record {
    queue_bound = h.queue_bound;
    batches_fit = AllFit-append w.batch_size w.batches batch h.batches_fit f;
    hand_fits = k;
  }

  finish-IsBounded : (w : Writer A) → IsBounded w → IsBounded (finish w)
  unfolding finish
  finish-IsBounded w h = record {
    queue_bound = h.queue_bound;
    batches_fit = h.batches_fit;
    hand_fits = tt;
  }

  drain_more-IsBounded :
      (db : Database A) (batch q : List A) (w : Writer A)
      → w.queue ≡ q
      → length batch < w.batch_size
      → Fits w.batch_size batch
      → IsBounded w
      → IsBounded (drain_more db batch q w)
  unfolding drain_more finish flush
  drain_more-IsBounded db batch (x ∷ q) w e l f h = record {
    queue_bound = ground (arith, h.queue_bound);
    batches_fit = h.batches_fit;
    hand_fits = ground (arith, length-append batch (x ∷ []));
  }
  drain_more-IsBounded db batch [] w e l f h =
      if_both IsBounded w.closed (finish (flush db batch w))
        (record (flush db batch w) { phase = receiving })
        (finish-IsBounded (record (flush db batch w) { phase = finished })
          (flushed-IsBounded db batch finished w tt f h))
        (flushed-IsBounded db batch receiving w tt f h)

  receive-IsBounded :
      (q : List A) (w : Writer A) → w.queue ≡ q → IsBounded w → IsBounded (receive q w)
  unfolding receive
  receive-IsBounded (x ∷ q) w e h = record {
    queue_bound = ground (arith, h.queue_bound);
    batches_fit = h.batches_fit;
    hand_fits = ground arith;
  }
  receive-IsBounded [] w e h = if_both IsBounded w.closed (finish w) w (finish-IsBounded w h) h

  work_in-IsBounded :
      (db : Database A) (p : Phase A) (w : Writer A)
      → w.phase ≡ p
      → IsBounded w
      → IsBounded (work_in db p w)
  unfolding work_in drain
  work_in-IsBounded db receiving w e h = receive-IsBounded w.queue w refl h
  work_in-IsBounded db (draining batch) w e h =
      let f : Fits w.batch_size batch = subst (HandFits w.batch_size) e h.hand_fits in
      if_cases IsBounded (ltb (length batch) w.batch_size) (drain_more db batch w.queue w)
        (record (flush db batch w) { phase = receiving })
        (λ l. drain_more-IsBounded db batch w.queue w refl (ground arith) f h)
        (λ l. flushed-IsBounded db batch receiving w tt f h)
  work_in-IsBounded db finished w e h = h

  enqueue-IsBounded : (x : A) (w : Writer A) → IsBounded w → IsBounded (enqueue x w).0
  unfolding enqueue
  enqueue-IsBounded x w h =
      let P : Writer A × Option WriteError → Type 0 = λ r. IsBounded r.0 in
      if_both P w.closed _ _ h (
        if_cases P (ltb (length w.queue) w.queue_cap) _ _
          (λ l. record {
            queue_bound = ground (arith, length-append w.queue (x ∷ []));
            batches_fit = h.batches_fit;
            hand_fits = h.hand_fits;
          })
          (λ l. h))

  step-IsBounded : (w : Writer A) (e : Event A) → IsBounded w → IsBounded (step w e)
  unfolding step close work
  step-IsBounded w (enqueues x) h = enqueue-IsBounded x w h
  step-IsBounded w closes h = record {
    queue_bound = h.queue_bound;
    batches_fit = h.batches_fit;
    hand_fits = h.hand_fits;
  }
  step-IsBounded w (works db) h = work_in-IsBounded db w.phase w refl h

  -- Whatever happens to a writer within the bounds, it stays within them: the queue never holds
  -- more than its capacity, and each batch that is written has a record and no more than the batch
  -- size allows.
  pub run-IsBounded : (w : Writer A) (es : List (Event A)) → IsBounded w → IsBounded (run w es)
  unfolding run
  run-IsBounded w [] h = h
  run-IsBounded w (e ∷ es) h = run-IsBounded (step w e) es (step-IsBounded w e h)
