-- ===== src/Freebuff/Session/User.antt =====
-- The acting user belongs to the token: pkg/spikes/freebuff/actor.go.
use ultiproxy.Base.{
  ◌≡◌, refl, ◌⊎◌, inl, inr, Bool, true, false, not, ◌||◌, ◌==◌, Option, none, some, List, [], ◌∷◌,
  Text, is_empty, if◌then◌else◌, if_both,
}
use ultiproxy.Freebuff.{
  Actor, ActorError, SessionInfo, AgentRun, Reply, failed, replied, is_success,
}
use ultiproxy.Freebuff.Session.{
  set_instance_id, set_token, user_or_token, user_of, store_user, fetch_user, acting_user,
  reconcile, delete_session, bound, bind_answer, bind, start_run, finish_run, heartbeat,
  start_heartbeat, stop_heartbeat, Call, sets_instance, sets_token, asks_user, reconciles, deletes,
  beats, binds, starts_run, finishes_run, starts_heartbeat, stops_heartbeat, step, run,
}

module _ (me : Text → Reply Text) where
  -- No id is cached, or the one that the account has for the actor's token.
  unfoldable pub Own : Text → Text → Type 0
  Own token id = (id ≡ []) ⊎ (id ≡ user_of (me token))

  abbrev pub IsOwn : Actor → Type 0
  IsOwn a = Own a.token a.acting_user_id

  abbrev After : Actor × Option ActorError → Type 0
  After r = IsOwn r.0

  store_user-IsOwn :
      (id : Text) (a : Actor) → IsOwn a → id ≡ user_of (me a.token) → IsOwn (store_user id a)
  unfolding store_user Own
  store_user-IsOwn id a p h = if_both IsOwn (is_empty id) _ _ p (inr h)

  fetch_user-IsOwn :
      (b : Bool) (a : Actor)
      → IsOwn a
      → is_empty a.acting_user_id ≡ b
      → IsOwn (fetch_user me (if b then (a.token, false) else (a.acting_user_id, true)) a).0
  fetch_user-IsOwn true a p h = store_user-IsOwn (user_of (me a.token)) a p refl
  fetch_user-IsOwn false a p h = p

  acting_user-IsOwn : (a : Actor) → IsOwn a → IsOwn (acting_user me a).0
  unfolding acting_user user_or_token
  acting_user-IsOwn a p = fetch_user-IsOwn (is_empty a.acting_user_id) a p refl

  reconcile-IsOwn : (r : Reply SessionInfo) (a : Actor) → IsOwn a → IsOwn (reconcile r a).0
  unfolding reconcile
  reconcile-IsOwn failed a p = p
  reconcile-IsOwn (replied status none) a p =
      if_both After (status == 404) _ _ p (if_both After (not (is_success status)) _ _ p p)
  reconcile-IsOwn (replied status (some sess)) a p =
      if_both After (status == 404) _ _ p (if_both After (not (is_success status)) _ _ p p)

  delete_session-IsOwn :
      (r : Reply SessionInfo) (a : Actor) → IsOwn a → IsOwn (delete_session r a).0
  unfolding delete_session
  delete_session-IsOwn failed a p = p
  delete_session-IsOwn (replied status body) a p = if_both After (is_success status) _ _ p p

  bound-IsOwn :
      (model : Text) (body : Option SessionInfo) (a : Actor) → IsOwn a → IsOwn (bound model body a)
  unfolding bound
  bound-IsOwn model none a p = p
  bound-IsOwn model (some sess) a p = p

  bind_answer-IsOwn :
      (model : Text) (r : Reply SessionInfo) (a : Actor) → IsOwn a → IsOwn (bind_answer model r a).0
  unfolding bind_answer
  bind_answer-IsOwn model failed a p = p
  bind_answer-IsOwn model (replied status body) a p =
      if_both After (is_success status) _ _ (bound-IsOwn model body a p) p

  bind-IsOwn :
      (model : Text) (r s t : Reply SessionInfo) (a : Actor)
      → IsOwn a
      → IsOwn (bind model r s t a).0
  unfolding bind
  bind-IsOwn model failed s t a p = p
  bind-IsOwn model (replied status body) s t a p =
      if_both After (status == 409) _ _ (bind_answer-IsOwn model t _ (delete_session-IsOwn s a p))
        (bind_answer-IsOwn model (replied status body) a p)

  start_run-IsOwn : (r : Reply AgentRun) (a : Actor) → IsOwn a → IsOwn (start_run r a).0
  unfolding start_run
  start_run-IsOwn failed a p = p
  start_run-IsOwn (replied status none) a p = if_both After (is_success status) _ _ p p
  start_run-IsOwn (replied status (some r)) a p = if_both After (is_success status) _ _ p p

  finish_run-IsOwn :
      (run_id : Text) (r : Reply AgentRun) (a : Actor)
      → IsOwn a
      → IsOwn (finish_run me run_id r a).0
  unfolding finish_run
  finish_run-IsOwn run_id failed a p = if_both After (is_empty run_id) _ _ p (acting_user-IsOwn a p)
  finish_run-IsOwn run_id (replied status body) a p =
      let asked = acting_user-IsOwn a p in
      if_both After (is_empty run_id) _ _ p (if_both After (is_success status) _ _ asked asked)

  heartbeat-IsOwn : (r : Reply SessionInfo) (a : Actor) → IsOwn a → IsOwn (heartbeat r a)
  unfolding heartbeat
  heartbeat-IsOwn failed a p = p
  heartbeat-IsOwn (replied status none) a p = if_both IsOwn _ _ _ p p
  heartbeat-IsOwn (replied status (some sess)) a p =
      if_both IsOwn (a.closed || is_empty a.token || not (status == 200)) _ _ p p

  step-IsOwn : (c : Call) (a : Actor) → IsOwn a → IsOwn (step me c a)
  unfolding step set_instance_id set_token start_heartbeat stop_heartbeat Own
  step-IsOwn (sets_instance id) a p = p
  step-IsOwn (sets_token tok) a p = inl refl
  step-IsOwn asks_user a p = acting_user-IsOwn a p
  step-IsOwn (reconciles r) a p = reconcile-IsOwn r a p
  step-IsOwn (deletes r) a p = delete_session-IsOwn r a p
  step-IsOwn (beats r) a p = heartbeat-IsOwn r a p
  step-IsOwn (binds model r s t) a p = bind-IsOwn model r s t a p
  step-IsOwn (starts_run r) a p = start_run-IsOwn r a p
  step-IsOwn (finishes_run run_id r) a p = finish_run-IsOwn run_id r a p
  step-IsOwn starts_heartbeat a p = if_both IsOwn (a.closed || a.hb_running) _ _ p p
  step-IsOwn stops_heartbeat a p = if_both IsOwn a.hb_running _ _ p p

-- After any calls, each without another one within it, the id that the actor caches for the
-- acting-user header is none, or the one that the account gives for the actor's token, if it is so
-- before them, as it is in a new actor.
pub user_follows_token :
    (me : Text → Reply Text) (cs : List Call) (a : Actor) → IsOwn me a → IsOwn me (run me cs a)
unfolding run
user_follows_token me [] a p = p
user_follows_token me (c ∷ cs) a p = user_follows_token me cs (step me c a) (step-IsOwn me c a p)
