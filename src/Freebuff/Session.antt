-- ===== src/Freebuff/Session.antt =====
-- The session, the runs and the user of an account actor: pkg/spikes/freebuff/actor.go.
pub mod User
use ultiproxy.Base.{
  ◌≡◌, Bool, true, false, not, ◌&&◌, ◌||◌, ℕ, ◌==◌, Option, none, some, List, [], ◌∷◌, Text,
  is_empty, text_eq, if◌then◌else◌,
}
use ultiproxy.Freebuff.{
  Actor, ActorError, bad_status, unreachable, undecodable, SessionInfo, AgentRun, get_run_id, Reply,
  failed, replied, is_success,
}

unfoldable pub set_instance_id : Text → Actor → Actor
set_instance_id id a = record a { instance_id = id }

unfoldable pub set_token : Text → Actor → Actor
set_token tok a = record a { token = tok; acting_user_id = [] }

-- ActingUserID: the cached id, or the token that the account is asked with.
unfoldable pub user_or_token : Actor → Text × Bool
user_or_token a = if is_empty a.acting_user_id then (a.token, false) else (a.acting_user_id, true)

-- The id of the answer; empty where there is none.
abbrev pub user_of : Reply Text → Text
user_of failed = []
user_of (replied status none) = []
user_of (replied status (some id)) = if is_success status then id else []

-- The store after the answer, where it has an id.
unfoldable pub store_user : Text → Actor → Actor
store_user id a = if is_empty id then a else record a { acting_user_id = id }

-- ActingUserID without another call within it; `me` is the account's answer for a token.
abbrev pub fetch_user : (Text → Reply Text) → Text × Bool → Actor → Actor × Text
fetch_user me (id, true) a = (a, id)
fetch_user me (tok, false) a = (store_user (user_of (me tok)) a, user_of (me tok))

unfoldable pub acting_user : (Text → Reply Text) → Actor → Actor × Text
acting_user me a = fetch_user me (user_or_token a) a

abbrev pub take_session : SessionInfo → Actor → Actor
take_session sess a = record a { instance_id = sess.instance_id; bound_model = sess.model }

-- Reconcile: 404 is no session and no error.
unfoldable pub reconcile : Reply SessionInfo → Actor → Actor × Option ActorError
reconcile failed a = (a, some unreachable)
reconcile (replied status body) a =
    if status == 404
    then (a, none)
    else if not (is_success status)
    then (a, some (bad_status status))
    else elim body [ none ↦ (a, some undecodable) | some sess ↦ (take_session sess a, none) ]

unfoldable pub delete_session : Reply SessionInfo → Actor → Actor × Option ActorError
delete_session failed a = (a, some unreachable)
delete_session (replied status body) a =
    if is_success status
    then (record a { instance_id = []; bound_model = [] }, none)
    else (a, some (bad_status status))

abbrev pub or_text : Text → Text → Text
or_text t u = if is_empty t then u else t

-- What Bind takes from its last answer.
unfoldable pub bound : Text → Option SessionInfo → Actor → Actor
bound model none a = record a { bound_model = model }
bound model (some sess) a = record a {
  instance_id = or_text sess.instance_id a.instance_id;
  bound_model = or_text sess.model model;
}

unfoldable pub bind_answer : Text → Reply SessionInfo → Actor → Actor × Option ActorError
bind_answer model failed a = (a, some unreachable)
bind_answer model (replied status body) a =
    if is_success status then (bound model body a, none) else (a, some (bad_status status))

-- Bind: on a conflict the session is deleted, whatever comes of it, and bound once more.
unfoldable pub bind :
    Text
    → Reply SessionInfo
    → Reply SessionInfo
    → Reply SessionInfo
    → Actor
    → Actor × Option ActorError
bind model failed deleted again a = (a, some unreachable)
bind model (replied status body) deleted again a =
    if status == 409
    then bind_answer model again (delete_session deleted a).0
    else bind_answer model (replied status body) a

unfoldable pub start_run : Reply AgentRun → Actor → Actor × Option ActorError
start_run failed a = (a, some unreachable)
start_run (replied status body) a =
    if is_success status
    then elim body [
      | none ↦ (a, some undecodable)
      | some r ↦ (record a { current_run = some r }, none)
    ]
    else (a, some (bad_status status))

abbrev pub end_run : Text → Option AgentRun → Option AgentRun
end_run run_id none = none
end_run run_id (some r) = if text_eq (get_run_id r) run_id then none else some r

-- FinishRun; the user is asked for before the call.
unfoldable pub finish_run :
    (Text → Reply Text) → Text → Reply AgentRun → Actor → Actor × Option ActorError
finish_run me run_id answer a =
    let asked = (acting_user me a).0 in
    if is_empty run_id then (a, none) else elim answer [
      | failed ↦ (asked, some unreachable)
      | replied status body ↦
          if is_success status
          then (record asked { current_run = end_run run_id asked.current_run }, none)
          else (asked, some (bad_status status))
    ]

-- One round of the heartbeat.
abbrev pub refreshed : Option SessionInfo → Actor → Actor
refreshed none a = a
refreshed (some sess) a = record a {
  instance_id = or_text sess.instance_id a.instance_id;
  bound_model = or_text sess.model a.bound_model;
}

unfoldable pub heartbeat : Reply SessionInfo → Actor → Actor
heartbeat failed a = a
heartbeat (replied status body) a =
    if a.closed || is_empty a.token || not (status == 200) then a else refreshed body a

unfoldable pub start_heartbeat : Actor → Actor
start_heartbeat a = if a.closed || a.hb_running then a else record a { hb_running = true }

unfoldable pub stop_heartbeat : Actor → Actor
stop_heartbeat a = if a.hb_running then record a { hb_running = false } else a

-- The calls, each without another one within it.
pub data Call : Type 0 where
  sets_instance sets_token : Text → Call
  asks_user : Call
  reconciles deletes beats : Reply SessionInfo → Call
  binds : (model : Text) (first deleted again : Reply SessionInfo) → Call
  starts_run : Reply AgentRun → Call
  finishes_run : (run_id : Text) → Reply AgentRun → Call
  starts_heartbeat stops_heartbeat : Call

unfoldable pub step : (Text → Reply Text) → Call → Actor → Actor
step me (sets_instance id) a = set_instance_id id a
step me (sets_token tok) a = set_token tok a
step me asks_user a = (acting_user me a).0
step me (reconciles r) a = (reconcile r a).0
step me (deletes r) a = (delete_session r a).0
step me (beats r) a = heartbeat r a
step me (binds model r s t) a = (bind model r s t a).0
step me (starts_run r) a = (start_run r a).0
step me (finishes_run run_id r) a = (finish_run me run_id r a).0
step me starts_heartbeat a = start_heartbeat a
step me stops_heartbeat a = stop_heartbeat a

unfoldable pub run : (Text → Reply Text) → List Call → Actor → Actor
run me [] a = a
run me (c ∷ cs) a = run me cs (step me c a)
