-- ===== src/Freebuff/Queue.antt =====
-- The stream queue of pkg/spikes/freebuff/actor.go: DoStream, Stream, the worker and the drain of
-- Close, step by step. A capacity of 0, a channel without a buffer, is out of the model.
use ultiproxy.Base.{
  ◌≡◌, refl, ap, ◌∙◌, sym, append_assoc, length-append, ℕ, ◌≤◌, Bool, true, false, Option, none,
  some, List, [], ◌∷◌, ◌++◌, length, ltb, if◌then◌else◌, if_cases, arith,
}
use ultiproxy.Freebuff.{ActorError, queue_full, closed_error}

-- Who takes a job off the queue: the worker, to run it, or Close, to refuse it.
pub data Taker : Type 0 where
  worker drain : Taker

-- `admitted` and `taken` record what has entered and left the queue.
pub record Jobs (J : Type 0) : Type 0 where
  pub queue_cap : ℕ
  pub queue : List J
  pub closed : Bool
  pub admitted : List J
  pub taken : List (J × Taker)

module _ {J : Type 0} where
  unfoldable pub new_jobs : ℕ → Jobs J
  new_jobs n = record { queue_cap = n; queue = []; closed = false; admitted = []; taken = [] }

  -- The check at the beginning of DoStream and Stream.
  unfoldable pub check_open : Jobs J → Option ActorError
  check_open q = if q.closed then some closed_error else none

  -- `select { case a.queue <- job: default: return ErrQueueFull }`.
  unfoldable pub enqueue : J → Jobs J → Jobs J × Option ActorError
  enqueue j q =
      if ltb (length q.queue) q.queue_cap
      then (record q { queue = q.queue ++ (j ∷ []); admitted = q.admitted ++ (j ∷ []) }, none)
      else (q, some queue_full)

  abbrev take_from : Taker → List J → Jobs J → Jobs J
  take_from by [] q = q
  take_from by (j ∷ js) q = record q { queue = js; taken = q.taken ++ ((j, by) ∷ []) }

  -- One receive from the queue, by the worker's loop or the drain's.
  unfoldable pub take_job : Taker → Jobs J → Jobs J
  take_job by q = take_from by q.queue q

  unfoldable pub close_queue : Jobs J → Jobs J
  close_queue q = record q { closed = true }

-- The steps of all goroutines. `enqueues` comes after a check that may be out of date.
pub data Step (J : Type 0) : Type 0 where
  enqueues : J → Step J
  takes : Taker → Step J
  closes : Step J

module _ {J : Type 0} where
  unfoldable pub step : Step J → Jobs J → Jobs J
  step (enqueues j) q = (enqueue j q).0
  step (takes by) q = take_job by q
  step closes q = close_queue q

  unfoldable pub run : List (Step J) → Jobs J → Jobs J
  run [] q = q
  run (s ∷ ss) q = run ss (step s q)

  abbrev pub jobs_of : List (J × Taker) → List J
  jobs_of [] = []
  jobs_of ((j, by) ∷ ts) = j ∷ jobs_of ts

  jobs_of-append : (ts us : List (J × Taker)) → jobs_of (ts ++ us) ≡ jobs_of ts ++ jobs_of us
  jobs_of-append [] us = refl
  jobs_of-append ((j, by) ∷ ts) us = ap (λ l. j ∷ l) (jobs_of-append ts us)

  pub record IsFifo (q : Jobs J) : Type 0 where
    pub in_order : jobs_of q.taken ++ q.queue ≡ q.admitted
    pub within : length q.queue ≤ q.queue_cap

  enqueue-IsFifo : (j : J) (q : Jobs J) → IsFifo q → IsFifo (enqueue j q).0
  unfolding enqueue
  enqueue-IsFifo j q p =
      if_cases After (ltb (length q.queue) q.queue_cap) _ _
        (λ h. record {
          in_order =
              sym (append_assoc (jobs_of q.taken) q.queue (j ∷ []))
              ∙ ap (λ l. l ++ (j ∷ [])) p.in_order;
          within = ground (arith, length-append q.queue (j ∷ []));
        })
        (λ h. p)
    where
      After : Jobs J × Option ActorError → Type 0
      After r = IsFifo r.0

  take-IsFifo :
      (by : Taker) (js : List J) (q : Jobs J) → q.queue ≡ js → IsFifo q → IsFifo (take_from by js q)
  take-IsFifo by [] q h p = p
  take-IsFifo by (j ∷ js) q h p = record {
    in_order =
        ap (λ l. l ++ js) (jobs_of-append q.taken ((j, by) ∷ []))
        ∙ append_assoc (jobs_of q.taken) (j ∷ []) js
        ∙ ap (λ l. jobs_of q.taken ++ l) (sym h)
        ∙ p.in_order;
    within = omega (arith, p.within, ap length h);
  }

  step-IsFifo : (s : Step J) (q : Jobs J) → IsFifo q → IsFifo (step s q)
  unfolding step take_job close_queue
  step-IsFifo (enqueues j) q p = enqueue-IsFifo j q p
  step-IsFifo (takes by) q p = take-IsFifo by q.queue q refl p
  step-IsFifo closes q p = record { in_order = p.in_order; within = p.within }

  run_from-IsFifo : (ss : List (Step J)) (q : Jobs J) → IsFifo q → IsFifo (run ss q)
  unfolding run
  run_from-IsFifo [] q p = p
  run_from-IsFifo (s ∷ ss) q p = run_from-IsFifo ss (step s q) (step-IsFifo s q p)

-- Whatever the order in which callers enqueue, the worker takes jobs and Close drains them, jobs
-- leave the queue in the order in which they were admitted, each once and to one taker, and no
-- more of them wait than the queue has room for.
run-IsFifo : {J : Type 0} (n : ℕ) (ss : List (Step J)) → IsFifo (run ss (new_jobs n))
unfolding new_jobs
run-IsFifo n ss = run_from-IsFifo ss _ (record { in_order = refl; within = omega arith })
