-- ===== src/Auth/Manager/Coherent.antt =====
-- The cache and the directory: a restart loses no credential, and generations never fall.
use ultiproxy.Base.{
  ℕ, ◌≤◌, ◌≡◌, sym, subst, inl, inr, Bool, true, false, Option, none, some, List, [], ◌∷◌, Text,
  if◌then◌else◌, lookup, insert, text_eq, text_eq_iff, lookup-insert, arith, Bool-cases,
}
use ultiproxy.Auth.Manager.{
  Credential, File, holds, Result, ok, err, Manager, new_manager, Refresher, Clock, is_stale,
  publish, store, invalidate, cached_or_loaded, load_from_disk, peek, bumped, adopt, flight,
  get_found, get_from, get, answered, refresh_latest, is_usable, Call, stores, invalidates, peeks,
  gets, step, run,
}
use ultiproxy.Auth.Manager.Written.{
  IsCoherent, written_through, written_through-IsCoherent, Written, store-Written, adopt-Written,
  load-Loaded,
}

-- The file of a key goes on holding a credential, of no lower generation.
abbrev HasFrom : Text → ℕ → Manager → Type 0
HasFrom key n m = (c : Credential) × (lookup key m.disk ≡ some (holds c)) × (n ≤ c.generation)

-- A step that keeps what is cached in the files, and lowers no generation.
pub record Keeps (m m' : Manager) : Type 0 where
  pub coherent : IsCoherent m → IsCoherent m'
  pub rises :
      (key : Text) (c : Credential)
      → lookup key m.disk ≡ some (holds c)
      → HasFrom key c.generation m'

Keeps-refl : (m : Manager) → Keeps m m
Keeps-refl m = record { coherent = λ h. h; rises = λ key c e. (c, e, omega arith) }

Keeps-trans : (m m' m'' : Manager) → Keeps m m' → Keeps m' m'' → Keeps m m''
Keeps-trans m m' m'' k l = record {
  coherent = λ h. l.coherent (k.coherent h);
  rises = λ key c e.
      let (c', e', le) = k.rises key c e in
      let (c'', e'', le') = l.rises key c' e' in (c'', e'', omega (arith, le, le'));
}

written_through-HasFrom :
    (key : Text) (cred : Credential) (m : Manager) (k : Text) (c : Credential)
    → is_stale cred (lookup key m.disk) ≡ false
    → lookup k m.disk ≡ some (holds c)
    → HasFrom k c.generation (written_through key cred m)
unfolding publish is_stale
written_through-HasFrom key cred m k c s e = elim (Bool-cases (text_eq key k)) [
  | inl b ↦ (
    cred,
    ground (arith, lookup-insert key k (holds cred) m.disk),
    ground (arith, text_eq_iff key k),
  )
  | inr b ↦ (c, ground (arith, lookup-insert key k (holds cred) m.disk), omega arith)
]

Written-Keeps :
    (key : Text) (cred : Credential) (m m' : Manager) → Written key cred m m' → Keeps m m'
Written-Keeps key cred m m' (inl e) = subst (Keeps m) (sym e) (Keeps-refl m)
Written-Keeps key cred m m' (inr (e, s)) = subst (Keeps m) (sym e) (record {
  coherent = written_through-IsCoherent key cred m;
  rises = λ k c. written_through-HasFrom key cred m k c s;
})

cached-Keeps :
    (key : Text) (cred : Credential) (m : Manager)
    → lookup key m.disk ≡ some (holds cred)
    → Keeps m (record m { cache = insert key cred m.cache })
cached-Keeps key cred m e = record {
  coherent = λ h k c f. ground (arith, h k c, lookup-insert key k cred m.cache, text_eq_iff key k);
  rises = λ k c f. (c, f, omega arith);
}

load-Keeps : (key : Text) (m : Manager) → Keeps m (cached_or_loaded key m).0
load-Keeps key m = elim (load-Loaded key m) [
  | inl (x, e) ↦ subst (λ r. Keeps m r.0) (sym e) (Keeps-refl m)
  | inr (inl (cred, e, f)) ↦ subst (λ r. Keeps m r.0) (sym e) (Keeps-refl m)
  | inr (inr (cred, e, f)) ↦ subst (λ r. Keeps m r.0) (sym e) (cached-Keeps key cred m f)
]

if-Keeps {ℓ} :
    {A : Type ℓ} (b : Bool) (m : Manager) (x : A) (r : Manager × A)
    → Keeps m r.0
    → Keeps m (if b then (m, x) else r).0
if-Keeps true m x r k = Keeps-refl m
if-Keeps false m x r k = k

answered-Keeps :
    (key : Text) (clock : Clock) (written : Bool) (latest : Credential) (a : Option Credential)
    (m : Manager)
    → Keeps m (answered key clock written latest a m).0
unfolding answered
answered-Keeps key clock written latest none m = Keeps-refl m
answered-Keeps key clock written latest (some refreshed) m =
    let cred = bumped latest refreshed in
    Written-Keeps key cred m (adopt key cred written m).0 (adopt-Written key cred written m)

refresh_latest-Keeps :
    (key : Text) (clock : Clock) (r : Refresher) (written : Bool) (latest : Credential)
    (m : Manager)
    → Keeps m (refresh_latest key clock r written latest m).0
unfolding refresh_latest
refresh_latest-Keeps key clock none written latest m = Keeps-refl m
refresh_latest-Keeps key clock (some refresh) written latest m =
    answered-Keeps key clock written latest (refresh latest) m

get_found-Keeps :
    (key : Text) (clock : Clock) (r : Refresher) (written : Bool) (cred : Credential) (m : Manager)
    → Keeps m (get_found key clock r written cred m).0
unfolding get_found flight
get_found-Keeps key clock r written cred m =
    let k = refresh_latest-Keeps key clock r written cred m in
    if-Keeps (is_usable key cred clock.now m) m (ok cred) (flight key clock r written cred m) (
      if-Keeps (is_usable key cred clock.flight_now m) m (ok cred)
        (refresh_latest key clock r written cred m) k)

get_from-Keeps :
    (key : Text) (clock : Clock) (r : Refresher) (written : Bool)
    (found : Manager × Result Credential)
    → Keeps found.0 (get_from key clock r written found).0
unfolding get_from
get_from-Keeps key clock r written (m, err e) = Keeps-refl m
get_from-Keeps key clock r written (m, ok cred) = get_found-Keeps key clock r written cred m

invalidate-Keeps : (key token : Text) (m : Manager) → Keeps m (invalidate key token m).0
unfolding invalidate
invalidate-Keeps key token m = record {
  coherent = λ h k c f. ground (arith, h k c);
  rises = λ k c f. (c, ground arith, omega arith);
}

step-Keeps : (m : Manager) (c : Call) → Keeps m (step m c)
unfolding step peek get
step-Keeps m (stores key cred written) =
    Written-Keeps key cred m (store key cred written m).0 (store-Written key cred written m)
step-Keeps m (invalidates key token) = invalidate-Keeps key token m
step-Keeps m (peeks key) = load-Keeps key m
step-Keeps m (gets key clock r written) =
    let found = cached_or_loaded key m in
    Keeps-trans m found.0 (get_from key clock r written found).0 (load-Keeps key m)
      (get_from-Keeps key clock r written found)

run-Keeps : (m : Manager) (cs : List Call) → Keeps m (run m cs)
unfolding run
run-Keeps m [] = Keeps-refl m
run-Keeps m (c ∷ cs) =
    Keeps-trans m (step m c) (run (step m c) cs) (step-Keeps m c) (run-Keeps (step m c) cs)

restarted_loads :
    (key : Text) (cred : Credential) (m : Manager)
    → lookup key m.disk ≡ some (holds cred)
    → (cached_or_loaded key (new_manager m.disk)).1 ≡ ok cred
unfolding cached_or_loaded load_from_disk new_manager lookup
restarted_loads key cred m e = ground arith

new_manager-IsCoherent : (disk : List (Text × File)) → IsCoherent (new_manager disk)
unfolding new_manager lookup
new_manager-IsCoherent disk k c h = cc

-- After any calls, none of which overlaps another, on a manager that starts over some files, and
-- whichever of its writes fail, a credential that is live in memory is the one that a restarted
-- manager loads for its key.
pub restart_keeps :
    (disk : List (Text × File)) (cs : List Call) (key : Text) (cred : Credential)
    → lookup key (run (new_manager disk) cs).cache ≡ some cred
    → let restarted = new_manager (run (new_manager disk) cs).disk in
      (cached_or_loaded key restarted).1 ≡ ok cred
restart_keeps disk cs key cred e =
    let m = run (new_manager disk) cs in
    let coherent = (run-Keeps (new_manager disk) cs).coherent (new_manager-IsCoherent disk) in
    restarted_loads key cred m (coherent key cred e)

-- Whatever is called, if no call overlaps another, and whichever writes fail, the file of a key that holds a credential goes on
-- holding one, and the generation in it never falls.
pub generation_rises :
    (m : Manager) (cs : List Call) (key : Text) (c : Credential)
    → lookup key m.disk ≡ some (holds c)
    → (c' : Credential) × (lookup key (run m cs).disk ≡ some (holds c'))
      × (c.generation ≤ c'.generation)
generation_rises m cs key c e = (run-Keeps m cs).rises key c e
