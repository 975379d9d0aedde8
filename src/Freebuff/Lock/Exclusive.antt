-- ===== src/Freebuff/Lock/Exclusive.antt =====
-- Actors on one lock file exclude each other: pkg/spikes/freebuff/actor.go.
use ultiproxy.Base.{
  ◌≡◌, refl, sym, subst, ◌⊎◌, inl, inr, ℕ, Bool, true, false, Option, List, [], ◌∷◌, ◌==◌, if_both,
  if_cases, arith,
}
use ultiproxy.Freebuff.{Actor, ActorError}
use ultiproxy.Freebuff.Lock.{
  TryLocked, locked, held, try_error, Flock, FlockLaws, System, put_actor, mark_locked, locked_or,
  try_acquire, acquire_check, acquire_lock, acquire_end, acquire_from, acquire, release, close,
  Call, try_acquires, acquires, releases, closes, step, run,
}

module _ (fl : Flock) (laws : FlockLaws fl) where
  -- An actor that takes itself for locked holds the lock file.
  abbrev Honest : Bool → ℕ → fl.File → Type 0
  Honest b i f = (b ≡ false) ⊎ (fl.holds i f ≡ true)

  pub record IsHonest (s : System fl) : Type 0 where
    pub honest : (i : ℕ) → Honest (s.actors i).is_locked i s.file

  -- After a step in which one actor's flag and the file change.
  put_actor-IsHonest :
      (i : ℕ) (a : Actor) (f : fl.File) (s : System fl)
      → Honest a.is_locked i f
      → ((j : ℕ) → (j == i) ≡ false → Honest (s.actors j).is_locked j f)
      → IsHonest (put_actor fl i a (record s { file = f }))
  put_actor-IsHonest i a f s h k = record {
    honest = λ j.
        if_cases (λ x. Honest x.is_locked j f) (j == i) a (s.actors j)
          (λ e.
            let same : j ≡ i = ground (arith, e) in
            subst (λ n. Honest a.is_locked n f) (sym same) h)
          (λ e. k j e);
  }

  -- A TryLock alone keeps everyone honest.
  tried-Honest :
      (i j : ℕ) (s : System fl)
      → IsHonest s
      → Honest (s.actors j).is_locked j (fl.try_lock i s.file).0
  tried-Honest i j s p = elim (p.honest j) [
    | inl h ↦ inl h
    | inr h ↦ inr (laws.try_lock-keeps i j s.file h)
  ]

  tried-IsHonest :
      (i : ℕ) (s : System fl) → IsHonest s → IsHonest (record s { file = (fl.try_lock i s.file).0 })
  tried-IsHonest i s p = record { honest = λ j. tried-Honest i j s p }

  -- The mark after a lock that the file has given.
  mark-IsHonest :
      (i : ℕ) (s : System fl)
      → IsHonest s
      → fl.holds i s.file ≡ true
      → IsHonest (mark_locked fl i s)
  mark-IsHonest i s p h =
      put_actor-IsHonest i (record (s.actors i) { is_locked = true }) s.file s (inr h)
        (λ j e. p.honest j)

  locked_or-IsHonest :
      (i : ℕ) (s : System fl) (f : fl.File) (t : TryLocked)
      → IsHonest (record s { file = f })
      → (t ≡ locked → fl.holds i f ≡ true)
      → IsHonest (locked_or fl i s (f, t)).0
  locked_or-IsHonest i s f locked p h = mark-IsHonest i (record s { file = f }) p (h refl)
  locked_or-IsHonest i s f held p h = p
  locked_or-IsHonest i s f try_error p h = p

  abbrev After : System fl × Option ActorError → Type 0
  After r = IsHonest r.0

  try_acquire-IsHonest : (i : ℕ) (s : System fl) → IsHonest s → IsHonest (try_acquire fl i s).0
  unfolding try_acquire
  try_acquire-IsHonest i s p = if_both After (s.actors i).closed _ _ p (
      if_both After (s.actors i).is_locked _ _ p (
        locked_or-IsHonest i s (fl.try_lock i s.file).0 (fl.try_lock i s.file).1
          (tried-IsHonest i s p) (laws.locked-holds i s.file)))

  acquire_end-IsHonest :
      (i : ℕ) (s : System fl) (t : TryLocked)
      → IsHonest s
      → (t ≡ locked → fl.holds i s.file ≡ true)
      → IsHonest (acquire_end fl i (s, t)).0
  acquire_end-IsHonest i s locked p h = mark-IsHonest i s p (h refl)
  acquire_end-IsHonest i s held p h = p
  acquire_end-IsHonest i s try_error p h = p

  acquire-IsHonest : (i : ℕ) (s : System fl) → IsHonest s → IsHonest (acquire fl i s).0
  unfolding acquire acquire_check acquire_lock
  acquire-IsHonest i s p =
      let P : Option (Option ActorError) → Type 0 = λ o. IsHonest (acquire_from fl i s o).0 in
      if_both P (s.actors i).closed _ _ p (
        if_both P (s.actors i).is_locked _ _ p (
          acquire_end-IsHonest i (record s { file = (fl.try_lock i s.file).0 })
            (fl.try_lock i s.file).1 (tried-IsHonest i s p) (laws.locked-holds i s.file)))

  release-IsHonest : (i : ℕ) (s : System fl) → IsHonest s → IsHonest (release fl i s)
  unfolding release
  release-IsHonest i s p =
      if_both IsHonest (s.actors i).is_locked _ _
        (put_actor-IsHonest i (record (s.actors i) { is_locked = false }) (fl.unlock i s.file) s
          (inl refl)
          (λ j e. elim (p.honest j) [
            | inl h ↦ inl h
            | inr h ↦ inr (laws.unlock-keeps i j s.file e h)
          ]))
        p

  close-IsHonest : (i : ℕ) (s : System fl) → IsHonest s → IsHonest (close fl i s)
  unfolding close
  close-IsHonest i s p = if_both IsHonest (s.actors i).closed _ _ p (
      release-IsHonest i _ (
        put_actor-IsHonest i (record (s.actors i) { closed = true; hb_running = false }) s.file s
          (p.honest i) (λ j e. p.honest j)))

  run-IsHonest : (cs : List Call) (s : System fl) → IsHonest s → IsHonest (run fl cs s)
  unfolding run step
  run-IsHonest [] s p = p
  run-IsHonest (try_acquires i ∷ cs) s p = run-IsHonest cs _ (try_acquire-IsHonest i s p)
  run-IsHonest (acquires i ∷ cs) s p = run-IsHonest cs _ (acquire-IsHonest i s p)
  run-IsHonest (releases i ∷ cs) s p = run-IsHonest cs _ (release-IsHonest i s p)
  run-IsHonest (closes i ∷ cs) s p = run-IsHonest cs _ (close-IsHonest i s p)

-- If gofrs/flock keeps its documented laws, then after any calls of TryAcquire, Acquire, Release
-- and Close by any actors on one lock file, each without another call of the same actor within it,
-- no two actors take themselves for the holder, if at the start each that does holds the file.
pub one_owner :
    (fl : Flock) (laws : FlockLaws fl) (s : System fl) (cs : List Call) (i j : ℕ)
    → IsHonest fl laws s
    → ((i ≡ j) ⊎ (((run fl cs s).actors i).is_locked ≡ false))
      ⊎ (((run fl cs s).actors j).is_locked ≡ false)
one_owner fl laws s cs i j start =
    let p = run-IsHonest fl laws cs s start in
    elim (p.honest i) [
      | inl h ↦ inl (inr h)
      | inr h ↦ elim (p.honest j) [
        | inl k ↦ inr k
        | inr k ↦ inl (inl (laws.one_holder i j (run fl cs s).file h k))
      ]
    ]
