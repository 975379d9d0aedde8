-- ===== src/Freebuff/Examples.antt =====
-- The theorems on the account actor at concrete inputs, and two interleavings that its calls do not
-- exclude.
use ultiproxy.Base.{
  ◌≡◌, refl, ◌⊎◌, inl, ℕ, Bool, true, false, Option, none, some, List, [], ◌∷◌, Text, bytes, ◌==◌,
  if◌then◌else◌, arith,
}
use ultiproxy.Freebuff.{new_actor, Reply, replied}
use ultiproxy.Freebuff.Lock.{
  Flock, FlockLaws, TryLocked, locked, held, System, Call, try_acquires, acquires, releases, closes,
  run, acquire_lock, acquire_end, acquire_check, acquire, release, try_acquire,
}
use ultiproxy.Freebuff.Lock.Exclusive.{IsHonest, one_owner}
use ultiproxy.Freebuff.Queue.{new_jobs, enqueues, takes, worker, drain, Step}
use ultiproxy.Freebuff.Queue
use ultiproxy.Freebuff.Session.{
  sets_token, asks_user, user_or_token, user_of, store_user, set_token,
}
use ultiproxy.Freebuff.Session
use ultiproxy.Freebuff.Session.User.{IsOwn, user_follows_token, Own}

-- A lock file as the number of its holder.
abbrev taken_by : ℕ → Option ℕ → Option ℕ × TryLocked
taken_by i none = (some i, locked)
taken_by i (some j) = if j == i then (some j, locked) else (some j, held)

abbrev given_up : ℕ → Option ℕ → Option ℕ
given_up i none = none
given_up i (some j) = if j == i then none else some j

abbrev is_holder : ℕ → Option ℕ → Bool
is_holder i none = false
is_holder i (some j) = j == i

abbrev flock : Flock
flock = record { File = Option ℕ; try_lock = taken_by; unlock = given_up; holds = is_holder }

one_holder : (i j : ℕ) (f : Option ℕ) → is_holder i f ≡ true → is_holder j f ≡ true → i ≡ j
one_holder i j none h k = cc
one_holder i j (some n) h k = ground arith

locked-holds :
    (i : ℕ) (f : Option ℕ) → (taken_by i f).1 ≡ locked → is_holder i (taken_by i f).0 ≡ true
locked-holds i none h = ground arith
locked-holds i (some n) h = ground arith

try_lock-keeps :
    (i j : ℕ) (f : Option ℕ) → is_holder j f ≡ true → is_holder j (taken_by i f).0 ≡ true
try_lock-keeps i j none h = cc
try_lock-keeps i j (some n) h = ground arith

unlock-keeps :
    (i j : ℕ) (f : Option ℕ)
    → (j == i) ≡ false
    → is_holder j f ≡ true
    → is_holder j (given_up i f) ≡ true
unlock-keeps i j none e h = cc
unlock-keeps i j (some n) e h = ground arith

flock-laws : FlockLaws flock
flock-laws = record {
  one_holder = one_holder;
  locked-holds = locked-holds;
  try_lock-keeps = try_lock-keeps;
  unlock-keeps = unlock-keeps;
}

abbrev start : System flock
start = record { file = none; actors = λ i. new_actor (bytes "tok") [] }

start-IsHonest : IsHonest flock flock-laws start
unfolding new_actor
start-IsHonest = record { honest = λ i. inl refl }

abbrev calls : List Call
calls = acquires 1 ∷ try_acquires 2 ∷ releases 1 ∷ try_acquires 2 ∷ closes 1 ∷ []

abbrev first_actor : ℕ
first_actor = 1

abbrev second_actor : ℕ
second_actor = 2

one_owner_example :
    ((first_actor ≡ second_actor) ⊎ (((run flock calls start).actors 1).is_locked ≡ false))
    ⊎ (((run flock calls start).actors 2).is_locked ≡ false)
one_owner_example = one_owner flock flock-laws start calls 1 2 start-IsHonest

-- Acquire of actor 1 has its lock and waits for the mutex; another Acquire and a Release of the
-- same actor and a TryAcquire of actor 2 come between: both take themselves for the holder.
abbrev between : System flock
between =
    let first = acquire_lock flock 1 start in
    let released = release flock 1 (acquire flock 1 first.0).0 in
    (acquire_end flock 1 ((try_acquire flock 2 released).0, first.1)).0

two_owners : ((between.actors 1).is_locked ≡ true) × ((between.actors 2).is_locked ≡ true)
unfolding acquire_lock acquire_check acquire release try_acquire new_actor
two_owners = (refl, refl)

abbrev steps : List (Step ℕ)
steps = enqueues 7 ∷ enqueues 8 ∷ takes worker ∷ Queue.closes ∷ takes drain ∷ []

-- The second job is refused for want of room, and the drain finds nothing.
only_first : (Queue.run steps (new_jobs 1)).taken ≡ (7, worker) ∷ []
unfolding new_jobs Queue.run Queue.step Queue.enqueue Queue.take_job Queue.close_queue
only_first = refl

-- An account that gives every token itself as the user's id.
abbrev me : Text → Reply Text
me tok = replied 200 (some tok)

none_cached : IsOwn me (new_actor (bytes "old") [])
unfolding Own new_actor
none_cached = inl refl

user_follows_token_example : IsOwn me (
    Session.run me
      (asks_user ∷ sets_token (bytes "new") ∷ asks_user ∷ [])
      (new_actor (bytes "old") []))
user_follows_token_example =
    user_follows_token me (asks_user ∷ sets_token (bytes "new") ∷ asks_user ∷ [])
      (new_actor (bytes "old") []) none_cached

-- SetToken between the question of ActingUserID and its answer leaves the old user cached.
stale_user :
    (store_user
      (user_of (me (user_or_token (new_actor (bytes "old") [])).0))
      (set_token (bytes "new") (new_actor (bytes "old") []))).acting_user_id
    ≡ bytes "old"
unfolding store_user user_or_token set_token new_actor
stale_user = refl
