-- ===== src/Storage/Writer.antt =====
-- The telemetry writer of pkg/storage/writer.go: producers, the worker and Close as events on one
-- state. The queue is a channel of anything, so the type of its records is a parameter. A
-- transaction's outcome is a parameter: SQLite answers each statement. `batches` and
-- `committed` log what was handed to writeBatch and the statements that it committed; what the
-- tables hold by them is `tables`.
pub mod Account
pub mod Honest
pub mod Drain
pub mod Bounds
use ultiproxy.Base.{
  ℕ, ◌+◌, Bool, true, false, not, Option, none, some, List, [], ◌∷◌, ◌++◌, length, Text,
  if◌then◌else◌, ltb, ◌==◌, is_some,
}

pub data WriteError : Type 0 where
  queue_full closed_writer : WriteError

-- What the database answers in one transaction, a text for an error.
pub record Database (A : Type 0) : Type 0 where
  pub begin : Option Text
  pub prepare_requests : Option Text
  pub prepare_attempts : Option Text
  pub prepare_usage : Option Text
  pub prepare_quota : Option Text
  pub exec : A → Option Text
  pub commit : Option Text

-- `if err != nil && firstErr == nil { firstErr = err }`.
unfoldable pub keep_err : Option Text → Option Text → Option Text
keep_err (some first) err = some first
keep_err none err = err

module _ {A : Type 0} where
  -- The records whose statements succeed, and the first error.
  unfoldable pub exec_all : Database A → List A → Option Text → List A × Option Text
  exec_all db [] first = ([], first)
  exec_all db (item ∷ items) first =
      let err = db.exec item in
      let (rows, e) = exec_all db items (keep_err first err) in
      (if is_some err then rows else item ∷ rows, e)

  unfoldable pub commit_rows : Database A → List A × Option Text → List A × Option Text
  commit_rows db (rows, first) = (if is_some db.commit then [] else rows, keep_err first db.commit)

  -- The first step of a transaction that fails, before any statement is executed.
  unfoldable pub opened : Database A → Option Text
  opened db =
      keep_err
        (keep_err (keep_err (keep_err db.begin db.prepare_requests) db.prepare_attempts)
          db.prepare_usage)
        db.prepare_quota

  -- The records whose statements a batch commits, and the error that writeBatch returns.
  unfoldable pub write_batch : Database A → List A → List A × Option Text
  write_batch db [] = ([], none)
  write_batch db (item ∷ items) = elim (opened db) [
    | some err ↦ ([], some err)
    | none ↦ commit_rows db (exec_all db (item ∷ items) none)
  ]

module _ {A : Type 0} (key : A → Option ℕ) where
  abbrev pub is_keyed : ℕ → Option ℕ → Bool
  is_keyed i none = false
  is_keyed i (some j) = i == j

  abbrev pub put : ℕ → A → List A → List A
  put i x [] = x ∷ []
  put i x (y ∷ ys) = if is_keyed i (key y) then x ∷ ys else y ∷ put i x ys

  -- The statement of a record. `key` is the id of a request that has one, which replaces the row of
  -- that id; any other record is a new row.
  abbrev pub exec_on : A → List A → List A
  exec_on x rows = elim (key x) [ none ↦ rows ++ (x ∷ []) | some i ↦ put i x rows ]

  -- The rows after statements, one after the other, on some rows.
  unfoldable pub tables : List A → List A → List A
  tables [] rows = rows
  tables (x ∷ xs) rows = tables xs (exec_on x rows)

-- Where the worker stands: at the receive of its loop, in the drain loop with a batch, or returned.
pub data Phase (A : Type 0) : Type 0 where
  receiving finished : Phase A
  draining : List A → Phase A

pub record Writer (A : Type 0) : Type 0 where
  pub queue_cap : ℕ
  pub batch_size : ℕ
  pub queue : List A
  pub closed : Bool
  pub phase : Phase A
  pub first_err : Option Text
  pub flush_err : Option Text
  pub batches : List (List A)
  pub committed : List A

module _ {A : Type 0} where
  unfoldable pub new_writer : Option ℕ → Option ℕ → Writer A
  new_writer cap size = record {
    queue_cap = elim cap [ none ↦ 4096 | some n ↦ n ];
    batch_size = elim size [ none ↦ 100 | some n ↦ n ];
    queue = [];
    closed = false;
    phase = receiving;
    first_err = none;
    flush_err = none;
    batches = [];
    committed = [];
  }

  unfoldable pub ready : Writer A → Bool
  ready w = not w.closed

  unfoldable pub enqueue : A → Writer A → Writer A × Option WriteError
  enqueue item w =
      if w.closed
      then (w, some closed_writer)
      else if ltb (length w.queue) w.queue_cap
      then (record w { queue = w.queue ++ (item ∷ []) }, none)
      else (w, some queue_full)

  -- The critical section of Close.
  unfoldable pub close : Writer A → Writer A
  close w = record w { closed = true }

  -- What Close returns: the errors of the flush and of the database's close, which it joins. A call
  -- that has found the writer closed returns at once, and the first one when the worker is done.
  unfoldable pub close_result : Bool → Option Text → Writer A → Option (Option Text × Option Text)
  close_result was_closed db_err w =
      if was_closed
      then some (none, none)
      else elim w.phase [ finished ↦ some (w.flush_err, db_err) | _ ↦ none ]

  -- `keepErr(w.writeBatch(batch))`.
  unfoldable pub flush : Database A → List A → Writer A → Writer A
  flush db batch w =
      let (rows, err) = write_batch db batch in
      record w {
        batches = w.batches ++ (batch ∷ []);
        committed = w.committed ++ rows;
        first_err = keep_err w.first_err err;
      }

  -- The worker returns, and its deferred function publishes the error.
  unfoldable pub finish : Writer A → Writer A
  finish w = record w { phase = finished; flush_err = w.first_err }

  unfoldable pub receive : List A → Writer A → Writer A
  receive (item ∷ items) w = record w { queue = items; phase = draining (item ∷ []) }
  receive [] w = if w.closed then finish w else w

  unfoldable pub drain_more : Database A → List A → List A → Writer A → Writer A
  drain_more db batch (item ∷ items) w = record w {
    queue = items;
    phase = draining (batch ++ (item ∷ []));
  }
  drain_more db batch [] w =
      if w.closed
      then finish (flush db batch w)
      else record (flush db batch w) { phase = receiving }

  unfoldable pub drain : Database A → List A → Writer A → Writer A
  drain db batch w =
      if ltb (length batch) w.batch_size
      then drain_more db batch w.queue w
      else record (flush db batch w) { phase = receiving }

  unfoldable pub work_in : Database A → Phase A → Writer A → Writer A
  work_in db receiving w = receive w.queue w
  work_in db (draining batch) w = drain db batch w
  work_in db finished w = w

  -- One receive of the worker, with the write that may follow it.
  unfoldable pub work : Database A → Writer A → Writer A
  work db w = work_in db w.phase w

pub data Event (A : Type 0) : Type 0 where
  enqueues : A → Event A
  closes : Event A
  works : Database A → Event A

module _ {A : Type 0} where
  unfoldable pub step : Writer A → Event A → Writer A
  step w (enqueues item) = (enqueue item w).0
  step w closes = close w
  step w (works db) = work db w

  unfoldable pub run : Writer A → List (Event A) → Writer A
  run w [] = w
  run w (e ∷ es) = run (step w e) es
