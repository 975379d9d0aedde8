-- ===== src/Freebuff.antt =====
-- The account actor of the freebuff lane: pkg/spikes/freebuff/actor.go. One record is the state
-- under its mutex; a call that gives the mutex up during an HTTP call takes the answer.
pub mod Lock
pub mod Queue
pub mod Session
mod Examples
use ultiproxy.Base.{
  ℕ, Bool, true, false, ◌&&◌, Option, none, some, List, [], Text, Duration, leb, ltb, is_empty,
  if◌then◌else◌,
}

pub data ActorError : Type 0 where
  lease_conflict queue_full closed_error : ActorError
  lock_failed unreachable undecodable context_done : ActorError
  bad_status : ℕ → ActorError

-- Session, without the status that no code reads.
pub record SessionInfo : Type 0 where
  pub instance_id : Text
  pub model : Text

pub record AgentRun : Type 0 where
  pub run_id : Text
  pub run_id_alt : Text

-- AgentRun.GetRunID.
abbrev pub get_run_id : AgentRun → Text
get_run_id r = if is_empty r.run_id then r.run_id_alt else r.run_id

-- FreebuffAccountActor without its queue, which is in Freebuff.Queue.
pub record Actor : Type 0 where
  pub is_locked : Bool
  pub token : Text
  pub instance_id : Text
  pub bound_model : Text
  pub current_run : Option AgentRun
  pub acting_user_id : Text
  pub closed : Bool
  pub hb_running : Bool

unfoldable pub new_actor : Text → Text → Actor
new_actor token instance_id = record {
  is_locked = false;
  token = token;
  instance_id = instance_id;
  bound_model = [];
  current_run = none;
  acting_user_id = [];
  closed = false;
  hb_running = false;
}

-- What an HTTP call gives: an error, or a status with the decoded body, `none` if it does not
-- decode.
pub data Reply (A : Type 0) : Type 0 where
  failed : Reply A
  replied : (status : ℕ) (body : Option A) → Reply A

abbrev pub is_success : ℕ → Bool
is_success status = leb 200 status && ltb status 300
