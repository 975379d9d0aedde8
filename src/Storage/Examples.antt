-- ===== src/Storage/Examples.antt =====
-- Runs of the telemetry writer at concrete inputs.
use ultiproxy.Base.{
  ℕ, ◌≡◌, refl, ◌==◌, if◌then◌else◌, Option, true, false, none, some, List, [], ◌∷◌, ◌++◌, map,
  is_some, bytes, arith,
}
use ultiproxy.Storage.Writer.{
  Database, receiving, Writer, Event, enqueues, closes, works, new_writer, enqueue, close,
  close_result, tables, flush, finish, receive, drain_more, drain, work, work_in, step, run,
}
use ultiproxy.Storage.Writer.Account.{admitted, accepted, run-admitted}
use ultiproxy.Storage.Writer.Drain.{close_returns}
use ultiproxy.Storage.Writer.Bounds.{IsBounded, run-IsBounded}

-- A database that takes everything.
abbrev healthy : Database ℕ
healthy = record {
  begin = none;
  prepare_requests = none;
  prepare_attempts = none;
  prepare_usage = none;
  prepare_quota = none;
  exec = λ item. none;
  commit = none;
}

-- A database whose commit fails.
abbrev failing : Database ℕ
failing = record healthy { commit = some (bytes "disk full") }

abbrev events : List (Event ℕ)
events =
    enqueues 1
    ∷ enqueues 2
    ∷ enqueues 3
    ∷ works healthy
    ∷ works healthy
    ∷ enqueues 4
    ∷ closes
    ∷ enqueues 5
    ∷ map works (healthy ∷ healthy ∷ healthy ∷ healthy ∷ healthy ∷ [])

-- Two places in the queue, and batches of two.
abbrev empty_writer : Writer ℕ
empty_writer = record {
  queue_cap = 2;
  batch_size = 2;
  queue = [];
  closed = false;
  phase = receiving;
  first_err = none;
  flush_err = none;
  batches = [];
  committed = [];
}

-- The third record finds the queue full, and the fifth the writer closed.
accepts : accepted (new_writer (some 2) (some 2)) events ≡ 1 ∷ 2 ∷ 4 ∷ []
unfolding accepted run step enqueue close work work_in receive drain drain_more flush finish
    new_writer
accepts = refl

run-admitted_example :
    admitted (run empty_writer events) ≡ admitted empty_writer ++ accepted empty_writer events
run-admitted_example = run-admitted empty_writer events

-- Of the records, 1 and 4 are requests of the id 1.
abbrev id_of : ℕ → Option ℕ
id_of n = if n == 2 then none else some 1

-- The row of the request is the one that was written last.
upserted : tables id_of (1 ∷ 2 ∷ 4 ∷ []) [] ≡ 4 ∷ 2 ∷ []
unfolding tables
upserted = refl

-- The database refuses the last record, and the worker comes to its end all the same.
close_returns_example :
    is_some (
      close_result false none (
        run
          (close (record empty_writer { queue = 7 ∷ [] }))
          (map works (failing ∷ failing ∷ failing ∷ failing ∷ []))))
    ≡ true
close_returns_example =
    close_returns false none (record empty_writer { queue = 7 ∷ [] })
      (failing ∷ failing ∷ failing ∷ failing ∷ []) (omega arith)

run-IsBounded_example : IsBounded (run empty_writer events)
run-IsBounded_example =
    run-IsBounded empty_writer events
      (record { queue_bound = omega arith; batches_fit = tt; hand_fits = tt })
