-- ===== src/Freebuff/Lock.antt =====
-- The advisory lock of pkg/spikes/freebuff/actor.go: the actors of several processes on one lock
-- file. The package gofrs/flock is a parameter.
pub mod Exclusive
use ultiproxy.Base.{
  ◌≡◌, ℕ, Bool, true, false, Option, none, some, List, [], ◌∷◌, ◌==◌, if◌then◌else◌,
}
use ultiproxy.Freebuff.{Actor, ActorError, lease_conflict, closed_error, lock_failed}

-- What TryLock answers.
pub data TryLocked : Type 0 where
  locked held try_error : TryLocked

-- The lock file as gofrs/flock presents it to the holders, each with a number.
pub record Flock : Type 1 where
  pub File : Type 0
  pub try_lock : ℕ → File → File × TryLocked
  pub unlock : ℕ → File → File
  pub holds : ℕ → File → Bool

-- What the package documents: one holder at a time; a successful TryLock holds; a TryLock takes
-- the lock from nobody; an Unlock gives up its own hold alone.
pub record FlockLaws (fl : Flock) : Type 0 where
  pub one_holder : (i j : ℕ) (f : fl.File) → fl.holds i f ≡ true → fl.holds j f ≡ true → i ≡ j
  pub locked-holds :
      (i : ℕ) (f : fl.File) → (fl.try_lock i f).1 ≡ locked → fl.holds i (fl.try_lock i f).0 ≡ true
  pub try_lock-keeps :
      (i j : ℕ) (f : fl.File) → fl.holds j f ≡ true → fl.holds j (fl.try_lock i f).0 ≡ true
  pub unlock-keeps :
      (i j : ℕ) (f : fl.File)
      → (j == i) ≡ false
      → fl.holds j f ≡ true
      → fl.holds j (fl.unlock i f) ≡ true

pub record System (fl : Flock) : Type 0 where
  pub file : fl.File
  pub actors : ℕ → Actor

module _ (fl : Flock) where
  abbrev pub put_actor : ℕ → Actor → System fl → System fl
  put_actor i a s = record s { actors = λ j. if j == i then a else s.actors j }

  -- `a.isLocked = true` after a successful lock.
  abbrev pub mark_locked : ℕ → System fl → System fl
  mark_locked i s = put_actor i (record (s.actors i) { is_locked = true }) s

  abbrev pub locked_or : ℕ → System fl → fl.File × TryLocked → System fl × Option ActorError
  locked_or i s (f, locked) = (mark_locked i (record s { file = f }), none)
  locked_or i s (f, held) = (record s { file = f }, some lease_conflict)
  locked_or i s (f, try_error) = (record s { file = f }, some lock_failed)

  -- TryAcquire, which holds the actor's mutex throughout.
  unfoldable pub try_acquire : ℕ → System fl → System fl × Option ActorError
  try_acquire i s =
      let a = s.actors i in
      if a.closed
      then (s, some closed_error)
      else if a.is_locked
      then (s, none)
      else locked_or i s (fl.try_lock i s.file)

  -- Acquire up to the place where it gives the mutex up: whether it goes on to the lock.
  unfoldable pub acquire_check : ℕ → System fl → Option (Option ActorError)
  acquire_check i s =
      let a = s.actors i in
      if a.closed then some (some closed_error) else if a.is_locked then some none else none

  -- TryLockContext, whose last attempt counts, without the actor's mutex.
  unfoldable pub acquire_lock : ℕ → System fl → System fl × TryLocked
  acquire_lock i s = let (f, answer) = fl.try_lock i s.file in (record s { file = f }, answer)

  abbrev pub acquire_end : ℕ → System fl × TryLocked → System fl × Option ActorError
  acquire_end i (s, locked) = (mark_locked i s, none)
  acquire_end i (s, held) = (s, some lease_conflict)
  acquire_end i (s, try_error) = (s, some lock_failed)

  abbrev pub acquire_from :
      ℕ → System fl → Option (Option ActorError) → System fl × Option ActorError
  acquire_from i s (some done) = (s, done)
  acquire_from i s none = acquire_end i (acquire_lock i s)

  -- Acquire without another call of the same actor between its parts.
  unfoldable pub acquire : ℕ → System fl → System fl × Option ActorError
  acquire i s = acquire_from i s (acquire_check i s)

  unfoldable pub release : ℕ → System fl → System fl
  release i s =
      let a = s.actors i in
      if a.is_locked
      then put_actor i (record a { is_locked = false }) (record s { file = fl.unlock i s.file })
      else s

  -- Close, as far as the lock and the flags are concerned.
  unfoldable pub close : ℕ → System fl → System fl
  close i s =
      let a = s.actors i in
      if a.closed
      then s
      else release i (put_actor i (record a { closed = true; hb_running = false }) s)

-- The calls, each without another call of the same actor within it.
pub data Call : Type 0 where
  try_acquires acquires releases closes : ℕ → Call

module _ (fl : Flock) where
  unfoldable pub step : Call → System fl → System fl
  step (try_acquires i) s = (try_acquire fl i s).0
  step (acquires i) s = (acquire fl i s).0
  step (releases i) s = release fl i s
  step (closes i) s = close fl i s

  unfoldable pub run : List Call → System fl → System fl
  run [] s = s
  run (c ∷ cs) s = run cs (step c s)
