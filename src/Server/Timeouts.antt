-- ===== src/Server/Timeouts.antt =====
-- The timeout manager of pkg/server/timeouts.go. time.ParseDuration and Duration.String are
-- parameters. The loops over maps start at the end of the list, so that the first row of a key
-- counts, as in a lookup; a failed write leaves the old file, which is replaced by a rename.
pub mod Positive
pub mod Restart
mod Examples
use ultiproxy.Base.{
  ℕ, Bool, true, false, not, Option, none, some, List, [], ◌∷◌, ◌||◌, ◌*◌, Text, Duration, pos,
  second, if◌then◌else◌, is_empty, is_nonpos, lookup, insert, erase, or_else,
}

pub record TimeoutManager : Type 0 where
  pub timeouts : List (Text × Duration)
  pub default_dur : Duration
  pub has_path : Bool
  -- The rows that the persistence file holds.
  pub file : Option (List (Text × Text))

pub data TimeoutError : Type 0 where
  corrupt_file unreadable_file invalid_timeout persist_failed : TimeoutError

-- What os.ReadFile and json.Unmarshal make of the persistence file.
pub data FileRead : Type 0 where
  missing corrupt unreadable : FileRead
  holds : List (Text × Text) → FileRead

abbrev pub default_request_timeout : Duration
default_request_timeout = pos (120 * second)

module _ (parse : Text → Option Duration) where
  -- A duration that parses and is above 0.
  unfoldable pub parse_positive : Text → Option Duration
  parse_positive text = elim (parse text) [
    | none ↦ none
    | some d ↦ if is_nonpos d then none else some d
  ]

  unfoldable pub load_config : List (Text × Text) → List (Text × Duration)
  load_config [] = []
  load_config ((provider, text) ∷ config) =
      let loaded = load_config config in
      elim (parse_positive text) [ none ↦ loaded | some d ↦ insert provider d loaded ]

  -- The loop over the stored rows, and whether it came to its end: the first row that is no
  -- timeout stops it, and what was loaded before stays.
  unfoldable pub load_runtime :
      List (Text × Text) → List (Text × Duration) → List (Text × Duration) × Bool
  load_runtime [] base = (base, true)
  load_runtime ((provider, text) ∷ rows) base =
      let (loaded, fine) = load_runtime rows base in
      if fine
      then elim (parse_positive text) [
        | none ↦ (loaded, false)
        | some d ↦ (insert provider d loaded, true)
      ]
      else (loaded, false)

  unfoldable pub load_file : FileRead → TimeoutManager → TimeoutManager × Option TimeoutError
  load_file missing tm = (tm, none)
  load_file corrupt tm = (tm, some corrupt_file)
  load_file unreadable tm = (tm, some unreadable_file)
  load_file (holds rows) tm =
      let (loaded, fine) = load_runtime rows tm.timeouts in
      (record tm { timeouts = loaded; file = some rows }, if fine then none else some corrupt_file)

  unfoldable pub new_timeout_manager :
      List (Text × Text) → Duration → Bool → FileRead → TimeoutManager × Option TimeoutError
  new_timeout_manager config default_dur has_path read =
      let tm : TimeoutManager = record {
        timeouts = load_config config;
        default_dur = if is_nonpos default_dur then default_request_timeout else default_dur;
        has_path = has_path;
        file = none;
      } in
      if has_path then load_file read tm else (tm, none)

unfoldable pub timeout : Text → TimeoutManager → Duration
timeout provider tm = or_else (lookup provider tm.timeouts) tm.default_dur

module _ (show : Duration → Text) where
  -- The rows that persistTimeouts writes.
  unfoldable pub shown : List (Text × Duration) → List (Text × Text)
  shown [] = []
  shown ((provider, d) ∷ rows) = (provider, show d) ∷ shown rows

  -- persistTimeouts, then publication; `written` says whether the write succeeds.
  unfoldable pub persist_timeouts :
      List (Text × Duration) → Bool → TimeoutManager → TimeoutManager × Option TimeoutError
  persist_timeouts next written tm =
      if not tm.has_path
      then (record tm { timeouts = next }, none)
      else if written
      then (record tm { timeouts = next; file = some (shown next) }, none)
      else (tm, some persist_failed)

  unfoldable pub set :
      Text → Duration → Bool → TimeoutManager → TimeoutManager × Option TimeoutError
  set provider d written tm =
      if is_empty provider || is_nonpos d
      then (tm, some invalid_timeout)
      else persist_timeouts (insert provider d tm.timeouts) written tm

  unfoldable pub remove : Text → Bool → TimeoutManager → TimeoutManager × Option TimeoutError
  remove provider written tm = persist_timeouts (erase provider tm.timeouts) written tm

pub data Call : Type 0 where
  sets : Text → Duration → Bool → Call
  removes : Text → Bool → Call

module _ (show : Duration → Text) where
  unfoldable pub step : TimeoutManager → Call → TimeoutManager
  step tm (sets provider d written) = (set show provider d written tm).0
  step tm (removes provider written) = (remove show provider written tm).0

  unfoldable pub run : TimeoutManager → List Call → TimeoutManager
  run tm [] = tm
  run tm (c ∷ cs) = run (step tm c) cs
