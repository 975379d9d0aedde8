-- ===== src/Storage/Writer/Drain.antt =====
-- What Close waits for: the worker comes to its end.
use ultiproxy.Base.{
  Bool, Option, Text, ℕ, ◌+◌, ◌*◌, ◌≤◌, ◌≡◌, refl, true, List, [], ◌∷◌, length, map, ◌-◌, if_both,
  ltb, is_some, arith,
}
use ultiproxy.Storage.Writer.{
  Database, Phase, receiving, finished, draining, Writer, works, close, close_result, flush, finish,
  receive, drain_more, drain, work, work_in, step, run,
}

module _ {A : Type 0} where
  -- A bound on the worker's steps once the writer is closed.
  abbrev weight : Phase A → ℕ → ℕ
  weight receiving n = 2 * n + 1
  weight (draining batch) n = 2 * n + 2
  weight finished n = 0

  abbrev remaining : Writer A → ℕ
  remaining w = weight w.phase (length w.queue)

  -- A step of the worker of a closed writer brings it nearer to its end.
  abbrev Nearer : ℕ → Writer A → Type 0
  Nearer n w = (w.closed ≡ true) × (remaining w ≤ n - 1)

  receive-Nearer :
      (q : List A) (w : Writer A)
      → w.closed ≡ true
      → Nearer (weight receiving (length q)) (receive q w)
  unfolding receive finish
  receive-Nearer [] w c = rw c (refl, omega arith)
  receive-Nearer (x ∷ q) w c = (c, omega arith)

  drain-Nearer :
      (db : Database A) (batch q : List A) (w : Writer A)
      → w.queue ≡ q
      → w.closed ≡ true
      → Nearer (weight (draining batch) (length q)) (drain_more db batch q w)
  unfolding drain_more finish flush
  drain-Nearer db batch [] w e c = ground arith
  drain-Nearer db batch (x ∷ q) w e c = (c, omega arith)

  work_in-Nearer :
      (db : Database A) (p : Phase A) (w : Writer A)
      → w.closed ≡ true
      → w.phase ≡ p
      → Nearer (weight p (length w.queue)) (work_in db p w)
  unfolding work_in drain flush
  work_in-Nearer db receiving w c e = receive-Nearer w.queue w c
  work_in-Nearer db (draining batch) w c e =
      if_both (Nearer (weight (draining batch) (length w.queue))) (ltb (length batch) w.batch_size)
        (drain_more db batch w.queue w) (record (flush db batch w) { phase = receiving })
        (drain-Nearer db batch w.queue w refl c) (c, omega arith)
  work_in-Nearer db finished w c e = (c, rw e (omega arith))

  work_on-finished :
      (w : Writer A) (dbs : List (Database A))
      → w.closed ≡ true
      → remaining w ≤ length dbs
      → (run w (map works dbs)).phase ≡ finished
  unfolding run step work
  work_on-finished w [] c l = ground arith
  work_on-finished w (db ∷ dbs) c l =
      let (c', n) = work_in-Nearer db w.phase w c refl in
      work_on-finished (work db w) dbs c' (omega arith)

  weight_bound : (p : Phase A) (n : ℕ) → weight p n ≤ 2 * n + 2
  weight_bound receiving n = omega arith
  weight_bound (draining batch) n = omega arith
  weight_bound finished n = omega arith

  finished_returns :
      (was_closed : Bool) (db_err : Option Text) (w : Writer A)
      → w.phase ≡ finished
      → is_some (close_result was_closed db_err w) ≡ true
  unfolding close_result
  finished_returns was_closed db_err w e = ground arith

  closed-finished :
      (w : Writer A) (dbs : List (Database A))
      → 2 * length w.queue + 2 ≤ length dbs
      → (run (close w) (map works dbs)).phase ≡ finished
  unfolding close
  closed-finished w dbs l =
      work_on-finished (close w) dbs refl (omega (arith, weight_bound w.phase (length w.queue)))

  -- Once the writer is closed, twice as many steps of the worker as there are records in the
  -- queue, and two more, bring it to its end, whatever the database answers; Close then returns.
  pub close_returns :
      (was_closed : Bool) (db_err : Option Text) (w : Writer A) (dbs : List (Database A))
      → 2 * length w.queue + 2 ≤ length dbs
      → is_some (close_result was_closed db_err (run (close w) (map works dbs))) ≡ true
  close_returns was_closed db_err w dbs l =
      finished_returns was_closed db_err (run (close w) (map works dbs)) (closed-finished w dbs l)
