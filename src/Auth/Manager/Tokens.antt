-- ===== src/Auth/Manager/Tokens.antt =====
-- What Get hands out: never an expired credential, nor a revoked one if it can be refreshed.
use ultiproxy.Base.{
  ◌≤◌, ◌≡◌, refl, sym, ap, subst, inl, inr, ◌⊎◌, Bool, true, false, Option, none, some, Text,
  if◌then◌else◌, time_sub, lookup, lookup-insert_self, lookup-erase, text_eq_refl, arith,
}
use ultiproxy.Auth.Manager.Written.{persist_cases, written_through}
use ultiproxy.Auth.Manager.{
  Credential, holds, AuthError, Result, ok, err, Manager, Refresher, Clock, adopted, publish,
  cached_or_loaded, load_from_disk, bumped, keep_latest, revoked_key, is_expired, is_fresh, adopt,
  flight, get_found, get_from, get, answered, refresh_latest, is_usable,
}

-- The credential came from the refresher, and is cached and no longer revoked.
abbrev pub Renewed : Text → Refresher → Credential → Manager → Type 0
Renewed key r cred m =
    (refresh : Credential → Option Credential) × (latest : Credential) × (refreshed : Credential)
    × (r ≡ some refresh)
    × (refresh latest ≡ some refreshed)
    × (cred ≡ bumped latest refreshed)
    × (lookup key m.cache ≡ some cred)
    × (lookup key m.disk ≡ some (holds cred))
    × (revoked_key key m ≡ false)

adopt_cases :
    (key : Text) (cred : Credential) (written : Bool) (m : Manager)
    → ((x : AuthError) × (adopt key cred written m ≡ (m, err x)))
      ⊎ (adopt key cred written m ≡ (written_through key cred m, ok cred))
unfolding adopt adopted
adopt_cases key cred written m = elim (persist_cases key cred written m) [
  | inl (x, e) ↦ inl (x, ap (adopted key cred) e)
  | inr (e, s) ↦ inr (ap (adopted key cred) e)
]

written_through-revoked :
    (key : Text) (cred : Credential) (m : Manager)
    → let m' = written_through key cred m in
      (lookup key m'.cache ≡ some cred)
      × (lookup key m'.disk ≡ some (holds cred))
      × (revoked_key key m' ≡ false)
unfolding publish revoked_key
written_through-revoked key cred m = ground (
  arith,
  lookup-insert_self key cred m.cache,
  lookup-insert_self key (holds cred) m.disk,
  lookup-erase key key m.revoked,
  text_eq_refl key,
)

-- Why Get may hand out a credential, in the order of its branches.
data Outcome (key : Text) (clock : Clock) (r : Refresher) (m : Manager) (cred : Credential)
    (m' : Manager) : Type 0 where
  usable_now : is_usable key cred clock.now m ≡ true → Outcome key clock r m cred m'
  usable_later : is_usable key cred clock.flight_now m ≡ true → Outcome key clock r m cred m'
  not_refreshed :
      r ≡ none → is_expired cred clock.after_refresh ≡ false → Outcome key clock r m cred m'
  kept :
      is_expired cred clock.after_refresh ≡ false
      → revoked_key key m ≡ false
      → Outcome key clock r m cred m'
  renewed : Renewed key r cred m' → Outcome key clock r m cred m'

abbrev Accounted : Text → Clock → Refresher → Manager → Manager × Result Credential → Type 0
Accounted key clock r m result =
    (cred : Credential) → result.1 ≡ ok cred → Outcome key clock r m cred result.0

answered-Accounted :
    (key : Text) (clock : Clock) (refresh : Credential → Option Credential) (written : Bool)
    (latest : Credential) (m : Manager) (a : Option Credential)
    → refresh latest ≡ a
    → Accounted key clock (some refresh) m (answered key clock written latest a m)
unfolding answered keep_latest
answered-Accounted key clock refresh written latest m none e cred h =
    kept (ground arith) (ground arith)
answered-Accounted key clock refresh written latest m (some refreshed) e cred h =
    let c = bumped latest refreshed in
    elim (adopt_cases key c written m) [
      | inl (x, k) ↦ cc
      | inr k ↦
          let (i, j, l) = written_through-revoked key c m in
          let same : c ≡ cred = cc in
          renewed (
            refresh,
            latest,
            refreshed,
            refl,
            e,
            sym same,
            rw (k, ← same) i,
            rw (k, ← same) j,
            rw k l,
          )
    ]

refresh_latest-Accounted :
    (key : Text) (clock : Clock) (r : Refresher) (written : Bool) (latest : Credential)
    (m : Manager)
    → Accounted key clock r m (refresh_latest key clock r written latest m)
unfolding refresh_latest
refresh_latest-Accounted key clock none written latest m cred h = not_refreshed refl (ground arith)
refresh_latest-Accounted key clock (some refresh) written latest m cred h =
    answered-Accounted key clock refresh written latest m (refresh latest) refl cred h

if-Accounted :
    (key : Text) (clock : Clock) (r : Refresher) (m : Manager) (b : Bool) (latest : Credential)
    (result : Manager × Result Credential)
    → (b ≡ true → Outcome key clock r m latest m)
    → Accounted key clock r m result
    → Accounted key clock r m (if b then (m, ok latest) else result)
if-Accounted key clock r m true latest result k l cred h =
    let same : latest ≡ cred = cc in subst (λ c. Outcome key clock r m c m) same (k refl)
if-Accounted key clock r m false latest result k l cred h = l cred h

get_found-Accounted :
    (key : Text) (clock : Clock) (r : Refresher) (written : Bool) (cred : Credential) (m : Manager)
    → Accounted key clock r m (get_found key clock r written cred m)
unfolding get_found flight
get_found-Accounted key clock r written cred m =
    if-Accounted key clock r m (is_usable key cred clock.now m) cred
      (flight key clock r written cred m) (λ e. usable_now e)
      (if-Accounted key clock r m (is_usable key cred clock.flight_now m) cred
        (refresh_latest key clock r written cred m) (λ e. usable_later e)
        (refresh_latest-Accounted key clock r written cred m))

get_from-Accounted :
    (key : Text) (clock : Clock) (r : Refresher) (written : Bool)
    (found : Manager × Result Credential)
    → Accounted key clock r found.0 (get_from key clock r written found)
unfolding get_from
get_from-Accounted key clock r written (m, err e) = λ cred h. cc
get_from-Accounted key clock r written (m, ok c) = get_found-Accounted key clock r written c m

load_revoked : (key : Text) (m : Manager) → (cached_or_loaded key m).0.revoked ≡ m.revoked
unfolding cached_or_loaded load_from_disk
load_revoked key m = ground arith

-- With a refresher, a Get of a revoked key that answers with a credential has refreshed it: the
-- answer comes from the refresher, is on disk and in memory, and the key is no longer revoked.
pub revoked-Renewed :
    (key : Text) (clock : Clock) (refresh : Credential → Option Credential) (written : Bool)
    (m : Manager) (cred : Credential)
    → revoked_key key m ≡ true
    → (get key clock (some refresh) written m).1 ≡ ok cred
    → Renewed key (some refresh) cred (get key clock (some refresh) written m).0
unfolding get revoked_key is_usable
revoked-Renewed key clock refresh written m cred h e =
    let l = load_revoked key m in
    elim (get_from-Accounted key clock (some refresh) written (cached_or_loaded key m) cred e) [
      | usable_now k ↦ ground arith
      | usable_later k ↦ ground arith
      | not_refreshed k f ↦ cc
      | kept f k ↦ ground arith
      | renewed k ↦ k
    ]

-- Get hands out a credential that is not expired at the time of its call, if the clock does not
-- go back, or one that the refresher has just returned.
pub get_valid :
    (key : Text) (clock : Clock) (r : Refresher) (written : Bool) (m : Manager) (cred : Credential)
    → clock.now ≤ clock.flight_now
    → clock.flight_now ≤ clock.after_refresh
    → (get key clock r written m).1 ≡ ok cred
    → (clock.now ≤ cred.expires_at) ⊎ Renewed key r cred (get key clock r written m).0
unfolding get is_usable is_fresh is_expired time_sub
get_valid key clock r written m cred h k e =
    elim (get_from-Accounted key clock r written (cached_or_loaded key m) cred e) [
      | usable_now u ↦ inl (ground arith)
      | usable_later u ↦ inl (ground arith)
      | not_refreshed n f ↦ inl (ground arith)
      | kept f n ↦ inl (ground arith)
      | renewed n ↦ inr n
    ]

-- Without a refresher a cached credential that is not expired is handed out, revoked or not.
pub unrefreshed_returned :
    (key : Text) (clock : Clock) (written : Bool) (m : Manager) (cred : Credential)
    → lookup key m.cache ≡ some cred
    → clock.after_refresh ≤ cred.expires_at
    → get key clock none written m ≡ (m, ok cred)
unfolding get get_from get_found cached_or_loaded flight refresh_latest is_expired
unrefreshed_returned key clock written m cred h k = ground arith
