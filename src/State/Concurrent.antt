-- ===== src/State/Concurrent.antt =====
-- Update under concurrency: each goroutine loads the snapshot pointer, builds its successor and
-- swaps it in if the pointer is the one that it loaded; else it starts again. A pointer is an
-- address and the snapshot there; each clone has an address of its own, as `Clone` allocates it.
use ultiproxy.Base.{
  ◌+◌, ℕ, suc, ◌<◌, ◌%◌, ◌^◌, length, ◌≡◌, ◌≢◌, refl, sym, ap, ◌∙◌, List, [], ◌∷◌, ◌++◌, Option,
  none, some, if◌then◌else◌, ◌==◌, arith,
}
use ultiproxy.State.Types.{RuntimeSnapshot}
use ultiproxy.State.Manager.{update_snapshot}

-- The pointer, the address of the next allocation, and what each goroutine has loaded.
pub record Shared : Type 0 where
  pub address : ℕ
  pub current : RuntimeSnapshot
  pub next_address : ℕ
  pub loaded : ℕ → Option (ℕ × RuntimeSnapshot)

abbrev pub Mutation : Type 0
Mutation = RuntimeSnapshot → RuntimeSnapshot

abbrev pub put :
    (ℕ → Option (ℕ × RuntimeSnapshot))
    → ℕ
    → Option (ℕ × RuntimeSnapshot)
    → ℕ
    → Option (ℕ × RuntimeSnapshot)
put f t v u = if t == u then v else f u

abbrev pub after_load : Shared → ℕ → Shared
after_load s t = record s { loaded = put s.loaded t (some (s.address, s.current)) }

abbrev pub after_swap : Shared → ℕ → Mutation → RuntimeSnapshot → Shared
after_swap s t fn old = record s {
  address = s.next_address;
  current = update_snapshot fn old;
  next_address = suc s.next_address;
  loaded = put s.loaded t none;
}

abbrev pub after_retry : Shared → ℕ → Shared
after_retry s t = record s { next_address = suc s.next_address; loaded = put s.loaded t none }

-- One move of goroutine `t`, whose call is `Update(fn)`; a swap is listed with its mutation.
pub data Move (s : Shared) : Option Mutation → Shared → Type 0 where
  load : (t : ℕ) → Move s none (after_load s t)
  swap :
      (t : ℕ) (fn : Mutation) (a : ℕ) (old : RuntimeSnapshot)
      → s.loaded t ≡ some (a, old)
      → a ≡ s.address
      → Move s (some fn) (after_swap s t fn old)
  retry :
      (t a : ℕ) (old : RuntimeSnapshot)
      → s.loaded t ≡ some (a, old)
      → a ≢ s.address
      → Move s none (after_retry s t)

-- A run, with the mutations that took effect in their order.
pub data Moves (s : Shared) : List Mutation → Shared → Type 0 where
  here : Moves s [] s
  quiet : {fs : List Mutation} {t u : Shared} → Moves s fs t → Move t none u → Moves s fs u
  commit :
      {fs : List Mutation} {t u : Shared} (fn : Mutation)
      → Moves s fs t
      → Move t (some fn) u
      → Moves s (fs ++ fn ∷ []) u

-- The mutations one after another.
pub update_all : List Mutation → RuntimeSnapshot → RuntimeSnapshot
update_all [] s = s
update_all (fn ∷ fs) s = update_all fs (update_snapshot fn s)

-- Addresses in use are below the next one, and a loaded address that is current has the current
-- snapshot.
pub record IsSound (s : Shared) : Type 0 where
  pub fresh : s.address < s.next_address
  pub known :
      (t a : ℕ) (old : RuntimeSnapshot)
      → s.loaded t ≡ some (a, old)
      → (a < s.next_address) × (a ≡ s.address → old ≡ s.current)

Move-IsSound : {s u : Shared} {f : Option Mutation} → Move s f u → IsSound s → IsSound u
Move-IsSound {s} (load t) h = record {
  fresh = h.fresh;
  known = λ u a old e. ground (arith, h.known u a old, h.fresh);
}
Move-IsSound {s} (swap t fn a old e k) h = record {
  fresh = omega arith;
  known = λ u b o q. ground (arith, h.known u b o);
}
Move-IsSound {s} (retry t a old e k) h = record {
  fresh = omega (arith, h.fresh);
  known = λ u b o q. ground (arith, h.known u b o);
}

Moves-IsSound : {s u : Shared} {fs : List Mutation} → Moves s fs u → IsSound s → IsSound u
Moves-IsSound here h = h
Moves-IsSound (quiet ms m) h = Move-IsSound m (Moves-IsSound ms h)
Moves-IsSound (commit fn ms m) h = Move-IsSound m (Moves-IsSound ms h)

update_all-append :
    (fs : List Mutation) (fn : Mutation) (s : RuntimeSnapshot)
    → update_all (fs ++ fn ∷ []) s ≡ update_snapshot fn (update_all fs s)
unfolding update_all
update_all-append [] fn s = refl
update_all-append (g ∷ fs) fn s = update_all-append fs fn (update_snapshot g s)

-- What one move does to the current snapshot.
abbrev after : Option Mutation → RuntimeSnapshot → RuntimeSnapshot
after none s = s
after (some fn) s = update_snapshot fn s

Move-current :
    {s u : Shared} {f : Option Mutation} → Move s f u → IsSound s → u.current ≡ after f s.current
Move-current (load t) h = refl
Move-current (swap t fn a old e k) h = ap (update_snapshot fn) ((h.known t a old e).1 k)
Move-current (retry t a old e k) h = refl

-- Updates from any number of goroutines, interleaved in any way, lose nothing: the snapshot is
-- what the mutations that took effect give one after another, in the order of their swaps.
pub no_lost_update :
    {s u : Shared} {fs : List Mutation}
    → IsSound s
    → Moves s fs u
    → u.current ≡ update_all fs s.current
unfolding update_all
no_lost_update h here = refl
no_lost_update h (quiet ms m) = Move-current m (Moves-IsSound ms h) ∙ no_lost_update h ms
no_lost_update {s} h (commit {fs = fs} fn ms m) =
    Move-current m (Moves-IsSound ms h)
    ∙ ap (update_snapshot fn) (no_lost_update h ms)
    ∙ sym (update_all-append fs fn s.current)

-- The version counts the updates that took effect, modulo 2^64.
pub version-update_all :
    (fs : List Mutation) (s : RuntimeSnapshot)
    → s.version < 2 ^ 64
    → (update_all fs s).version ≡ (s.version + length fs) % 2 ^ 64
unfolding update_all update_snapshot
version-update_all [] s h = ground arith
version-update_all (fn ∷ fs) s h =
    omega (arith, version-update_all fs (update_snapshot fn s) (omega arith))
