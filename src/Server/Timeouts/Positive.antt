-- ===== src/Server/Timeouts/Positive.antt =====
-- No lane without a timeout.
use ultiproxy.Base.{
  ◌≡◌, refl, Bool, true, false, not, Option, none, some, List, [], ◌∷◌, ◌&&◌, Text, Duration,
  if◌then◌else◌, if_both, if_cases, is_nonpos, is_empty, ◌||◌, lookup, insert, erase, or_else,
  arith, Option-cases, inl, inr,
}
use ultiproxy.Server.Timeouts.{
  TimeoutManager, TimeoutError, FileRead, missing, corrupt, unreadable, holds,
  default_request_timeout, parse_positive, load_config, load_runtime, load_file,
  new_timeout_manager, timeout, persist_timeouts, set, remove, Call, sets, removes, step, run,
}

unfoldable pub all_positive : List (Text × Duration) → Bool
all_positive [] = true
all_positive ((provider, d) ∷ rows) = not (is_nonpos d) && all_positive rows

-- Every timeout is above 0, the default one too.
pub record IsPositive (tm : TimeoutManager) : Type 0 where
  pub explicit : all_positive tm.timeouts ≡ true
  pub default : is_nonpos tm.default_dur ≡ false

pub all_positive-insert :
    (p : Text) (d : Duration) (m : List (Text × Duration))
    → is_nonpos d ≡ false
    → all_positive m ≡ true
    → all_positive (insert p d m) ≡ true
unfolding all_positive insert
all_positive-insert p d [] h k = ground arith
all_positive-insert p d ((q, e) ∷ m) h k = ground (arith, all_positive-insert p d m h)

all_positive-erase :
    (p : Text) (m : List (Text × Duration))
    → all_positive m ≡ true
    → all_positive (erase p m) ≡ true
unfolding all_positive erase
all_positive-erase p [] k = refl
all_positive-erase p ((q, e) ∷ m) k = ground (arith, all_positive-erase p m)

all_positive-lookup :
    (p : Text) (m : List (Text × Duration)) (default : Duration)
    → all_positive m ≡ true
    → is_nonpos default ≡ false
    → is_nonpos (or_else (lookup p m) default) ≡ false
unfolding all_positive lookup
all_positive-lookup p [] default h k = k
all_positive-lookup p ((q, e) ∷ m) default h k = ground (arith, all_positive-lookup p m default)

module _ (parse : Text → Option Duration) where
  parse_positive-above :
      (text : Text) (d : Duration) → parse_positive parse text ≡ some d → is_nonpos d ≡ false
  unfolding parse_positive
  parse_positive-above text d h = ground arith

  all_positive-load_config :
      (config : List (Text × Text)) → all_positive (load_config parse config) ≡ true
  unfolding load_config all_positive
  all_positive-load_config [] = refl
  all_positive-load_config ((p, text) ∷ config) = elim (Option-cases (parse_positive parse text)) [
    | inl e ↦ ground (arith, all_positive-load_config config)
    | inr (d, e) ↦ ground (
      arith,
      all_positive-load_config config,
      all_positive-insert p d (load_config parse config) (parse_positive-above text d e),
    )
  ]

  all_positive-load_runtime :
      (rows : List (Text × Text)) (base : List (Text × Duration))
      → all_positive base ≡ true
      → all_positive (load_runtime parse rows base).0 ≡ true
  unfolding load_runtime
  all_positive-load_runtime [] base h = h
  all_positive-load_runtime ((p, text) ∷ rows) base h =
      elim (Option-cases (parse_positive parse text)) [
        | inl e ↦ ground (arith, all_positive-load_runtime rows base h)
        | inr (d, e) ↦ ground (
          arith,
          all_positive-load_runtime rows base h,
          all_positive-insert p d (load_runtime parse rows base).0 (parse_positive-above text d e),
        )
      ]

  load_file-IsPositive :
      (read : FileRead) (tm : TimeoutManager)
      → IsPositive tm
      → IsPositive (load_file parse read tm).0
  unfolding load_file
  load_file-IsPositive missing tm h = h
  load_file-IsPositive corrupt tm h = h
  load_file-IsPositive unreadable tm h = h
  load_file-IsPositive (holds rows) tm h = record {
    explicit = all_positive-load_runtime rows tm.timeouts h.explicit;
    default = h.default;
  }

  default_positive :
      (d : Duration) → is_nonpos (if is_nonpos d then default_request_timeout else d) ≡ false
  default_positive d = ground arith

  new_timeout_manager-IsPositive :
      (config : List (Text × Text)) (d : Duration) (has_path : Bool) (read : FileRead)
      → IsPositive (new_timeout_manager parse config d has_path read).0
  unfolding new_timeout_manager
  new_timeout_manager-IsPositive config d has_path read =
      let P : TimeoutManager × Option TimeoutError → Type 0 = λ r. IsPositive r.0 in
      let fresh : TimeoutManager = record {
        timeouts = load_config parse config;
        default_dur = if is_nonpos d then default_request_timeout else d;
        has_path = has_path;
        file = none;
      } in
      let h : IsPositive fresh = record {
        explicit = all_positive-load_config config;
        default = default_positive d;
      } in
      if_both P has_path (load_file parse read fresh) (fresh, none)
        (load_file-IsPositive read fresh h) h

module _ (show : Duration → Text) where
  persist-IsPositive :
      (next : List (Text × Duration)) (written : Bool) (tm : TimeoutManager)
      → all_positive next ≡ true
      → IsPositive tm
      → IsPositive (persist_timeouts show next written tm).0
  unfolding persist_timeouts
  persist-IsPositive next written tm k h =
      let P : TimeoutManager × Option TimeoutError → Type 0 = λ r. IsPositive r.0 in
      let ok : IsPositive (record tm { timeouts = next }) = record {
        explicit = k;
        default = h.default;
      } in
      if_both P (not tm.has_path) _ _ ok
        (if_both P written _ _ (record { explicit = k; default = h.default }) h)

  step-IsPositive : (tm : TimeoutManager) (c : Call) → IsPositive tm → IsPositive (step show tm c)
  unfolding step set remove
  step-IsPositive tm (sets p d written) h =
      let P : TimeoutManager × Option TimeoutError → Type 0 = λ r. IsPositive r.0 in
      if_cases P (is_empty p || is_nonpos d) _ _ (λ e. h)
        (λ e.
          persist-IsPositive (insert p d tm.timeouts) written tm
            (all_positive-insert p d tm.timeouts (ground arith) h.explicit) h)
  step-IsPositive tm (removes p written) h =
      persist-IsPositive (erase p tm.timeouts) written tm
        (all_positive-erase p tm.timeouts h.explicit) h

  run-IsPositive :
      (tm : TimeoutManager) (cs : List Call) → IsPositive tm → IsPositive (run show tm cs)
  unfolding run
  run-IsPositive tm [] h = h
  run-IsPositive tm (c ∷ cs) h = run-IsPositive (step show tm c) cs (step-IsPositive tm c h)

module _ (parse : Text → Option Duration) (show : Duration → Text) where
  -- Whatever the configuration and the file hold, and whatever is set and removed afterwards, every
  -- provider has a timeout above 0, so that no call of a lane goes without one.
  pub timeout_positive :
      (config : List (Text × Text)) (d : Duration) (has_path : Bool) (read : FileRead)
      (cs : List Call) (provider : Text)
      → let tm = run show (new_timeout_manager parse config d has_path read).0 cs in
        is_nonpos (timeout provider tm) ≡ false
  unfolding timeout
  timeout_positive config d has_path read cs provider =
      let tm = (new_timeout_manager parse config d has_path read).0 in
      let h =
        run-IsPositive show tm cs (new_timeout_manager-IsPositive parse config d has_path read) in
      all_positive-lookup provider (run show tm cs).timeouts (run show tm cs).default_dur h.explicit
        h.default
