-- ===== src/Auth/Manager.antt =====
-- The credential manager of pkg/auth/manager.go, and the credential of credential.go. The directory is
-- a map from keys to files: the name of a key's file is its SHA-256, taken to be injective. The
-- file is read and written without the mutex: Store is its persist and then its publish, and `store`
-- is a call in which no other comes between them. The same holds of Get, whose flights of one key
-- follow each other by the singleflight group. The refresher is a parameter, and so is
-- whether a write of the file succeeds; a failed one leaves the old file, which is replaced by a
-- rename.
pub mod Written
pub mod Coherent
pub mod Tokens
use ultiproxy.Base.{
  ℕ, ◌+◌, ◌%◌, ◌^◌, ◌*◌, Bool, true, false, not, Option, none, some, List, [], ◌∷◌, ◌||◌, ◌&&◌,
  Text, Time, pos, second, if◌then◌else◌, is_empty, is_some, lookup, insert, erase, text_eq,
  time_sub, ltb, leb, ltb_ℤ,
}

pub record Credential : Type 0 where
  pub tenant : Text
  pub provider : Text
  pub access_token : Text
  pub refresh_token : Text
  pub expires_at : Time
  pub generation : ℕ
  pub client_id : Text
  pub project_id : Text

-- What a credential file holds: a credential, text that is none, or something unreadable.
pub data File : Type 0 where
  holds : Credential → File
  corrupt unreadable : File

pub data AuthError : Type 0 where
  not_found unreadable_file corrupt_file generation_stale persist_failed : AuthError
  expired refresh_failed_expired refresh_failed_revoked : AuthError

pub data Result {ℓ} (A : Type ℓ) : Type ℓ where
  ok : A → Result A
  err : AuthError → Result A

pub record Manager : Type 0 where
  pub cache : List (Text × Credential)
  pub revoked : List (Text × Unit {0})
  pub disk : List (Text × File)

-- NewManager: an empty cache over what the directory holds.
unfoldable pub new_manager : List (Text × File) → Manager
new_manager disk = record { cache = []; revoked = []; disk = disk }

-- The refresher: nil, or a function of the latest credential, `none` for an error.
abbrev pub Refresher : Type 0
Refresher = Option (Credential → Option Credential)

-- The readings of the clock in Get: at the start, in the flight, and after the refresher.
pub record Clock : Type 0 where
  pub now : Time
  pub flight_now : Time
  pub after_refresh : Time

unfoldable pub revoked_key : Text → Manager → Bool
revoked_key key m = is_some (lookup key m.revoked)

-- The compare-and-swap on the generation of the file.
unfoldable pub is_stale : Credential → Option File → Bool
is_stale cred (some (holds existing)) = ltb cred.generation existing.generation
is_stale cred _ = false

unfoldable pub persist : Text → Credential → Bool → Manager → Manager × Option AuthError
persist key cred written m =
    if is_stale cred (lookup key m.disk)
    then (m, some generation_stale)
    else if written
    then (record m { disk = insert key (holds cred) m.disk }, none)
    else (m, some persist_failed)

-- `m.cache[key] = cred; delete(m.revoked, key)`.
unfoldable pub publish : Text → Credential → Manager → Manager
publish key cred m = record m { cache = insert key cred m.cache; revoked = erase key m.revoked }

-- The rest of Store, after its persist.
unfoldable pub stored : Text → Credential → Manager × Option AuthError → Manager × Option AuthError
stored key cred (m, none) = (publish key cred m, none)
stored key cred (m, some x) = (m, some x)

-- Store without another call within it.
unfoldable pub store : Text → Credential → Bool → Manager → Manager × Option AuthError
store key cred written m = stored key cred (persist key cred written m)

unfoldable pub load_from_disk : Text → Manager → Result Credential
load_from_disk key m = elim (lookup key m.disk) [
  | none ↦ err not_found
  | some (holds cred) ↦ ok cred
  | some corrupt ↦ err corrupt_file
  | some unreadable ↦ err unreadable_file
]

abbrev mark : Text → Manager → Manager × Bool
mark key m = (record m { revoked = insert key tt m.revoked }, true)

unfoldable pub invalidate : Text → Text → Manager → Manager × Bool
invalidate key access_token m = elim (lookup key m.cache) [
  | none ↦ mark key m
  | some cred ↦
      if not (is_empty access_token) && not (text_eq cred.access_token access_token)
      then (m, false)
      else mark key m
]

-- The first lines of Peek and Get: the cached credential, or the file's, which is then cached.
unfoldable pub cached_or_loaded : Text → Manager → Manager × Result Credential
cached_or_loaded key m = elim (lookup key m.cache) [
  | some cred ↦ (m, ok cred)
  | none ↦ elim (load_from_disk key m) [
    | ok cred ↦ (record m { cache = insert key cred m.cache }, ok cred)
    | err e ↦ (m, err e)
  ]
]

unfoldable pub peek : Text → Manager → Manager × Option Credential
peek key m =
    let (m', r) = cached_or_loaded key m in (m', elim r [ ok cred ↦ some cred | err e ↦ none ])

-- `cred.ExpiresAt.Sub(now) > 5*time.Minute`.
unfoldable pub is_fresh : Credential → Time → Bool
is_fresh cred now = ltb_ℤ (pos (300 * second)) (time_sub cred.expires_at now)

-- `now.After(cred.ExpiresAt)`.
unfoldable pub is_expired : Credential → Time → Bool
is_expired cred now = ltb cred.expires_at now

-- `if refreshed.Generation <= latest.Generation { refreshed.Generation = latest.Generation + 1 }`.
unfoldable pub bumped : Credential → Credential → Credential
bumped latest refreshed =
    if leb refreshed.generation latest.generation
    then record refreshed { generation = (latest.generation + 1) % 2 ^ 64 }
    else refreshed

-- The refresher failed.
unfoldable pub keep_latest : Text → Clock → Credential → Manager → Result Credential
keep_latest key clock latest m =
    if is_expired latest clock.after_refresh
    then err refresh_failed_expired
    else if revoked_key key m
    then err refresh_failed_revoked
    else ok latest

-- The refresher returned a credential: its persist, and the rest of the flight.
unfoldable pub adopted :
    Text → Credential → Manager × Option AuthError → Manager × Result Credential
adopted key cred (m, none) = (publish key cred m, ok cred)
adopted key cred (m, some x) = (m, err x)

unfoldable pub adopt : Text → Credential → Bool → Manager → Manager × Result Credential
adopt key cred written m = adopted key cred (persist key cred written m)

-- The answer of the refresher, if there is one.
unfoldable pub answered :
    Text → Clock → Bool → Credential → Option Credential → Manager → Manager × Result Credential
answered key clock written latest none m = (m, keep_latest key clock latest m)
answered key clock written latest (some refreshed) m = adopt key (bumped latest refreshed) written m

unfoldable pub refresh_latest :
    Text → Clock → Refresher → Bool → Credential → Manager → Manager × Result Credential
refresh_latest key clock none written latest m =
    (m, if is_expired latest clock.after_refresh then err expired else ok latest)
refresh_latest key clock (some refresh) written latest m =
    answered key clock written latest (refresh latest) m

-- More than five minutes are left, and it is not revoked.
unfoldable pub is_usable : Text → Credential → Time → Manager → Bool
is_usable key cred now m = is_fresh cred now && not (revoked_key key m)

-- The function that singleflight runs.
unfoldable pub flight :
    Text → Clock → Refresher → Bool → Credential → Manager → Manager × Result Credential
flight key clock refresher written latest m =
    if is_usable key latest clock.flight_now m
    then (m, ok latest)
    else refresh_latest key clock refresher written latest m

-- The credential that was found, or the one of a flight.
unfoldable pub get_found :
    Text → Clock → Refresher → Bool → Credential → Manager → Manager × Result Credential
get_found key clock refresher written cred m =
    if is_usable key cred clock.now m
    then (m, ok cred)
    else flight key clock refresher written cred m

unfoldable pub get_from :
    Text → Clock → Refresher → Bool → Manager × Result Credential → Manager × Result Credential
get_from key clock refresher written (m, err e) = (m, err e)
get_from key clock refresher written (m, ok cred) = get_found key clock refresher written cred m

-- Get without another call within it.
unfoldable pub get : Text → Clock → Refresher → Bool → Manager → Manager × Result Credential
get key clock refresher written m = get_from key clock refresher written (cached_or_loaded key m)

-- The calls, none of which overlaps another.
pub data Call : Type 0 where
  stores : Text → Credential → Bool → Call
  invalidates : Text → Text → Call
  peeks : Text → Call
  gets : Text → Clock → Refresher → Bool → Call

unfoldable pub step : Manager → Call → Manager
step m (stores key cred written) = (store key cred written m).0
step m (invalidates key token) = (invalidate key token m).0
step m (peeks key) = (peek key m).0
step m (gets key clock refresher written) = (get key clock refresher written m).0

unfoldable pub run : Manager → List Call → Manager
run m [] = m
run m (c ∷ cs) = run (step m c) cs
