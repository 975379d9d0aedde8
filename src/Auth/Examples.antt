-- ===== src/Auth/Examples.antt =====
-- Runs of the credential manager at concrete inputs.
use ultiproxy.Base.{
  arith, ℕ, ◌+◌, ◌*◌, ◌≤◌, ◌≡◌, refl, ◌⊎◌, true, Option, none, some, List, [], ◌∷◌, Text, bytes,
  second, lookup, insert, erase, text_eq, time_sub,
}
use ultiproxy.Auth.Manager.{
  Credential, File, holds, ok, Manager, new_manager, Clock, invalidate, cached_or_loaded, get,
  load_from_disk, persist, publish, is_stale, bumped, adopt, adopted, answered, refresh_latest,
  is_usable, is_fresh, flight, get_found, get_from, revoked_key, Call, invalidates, gets, step, run,
}
use ultiproxy.Auth.Manager.Coherent.{restart_keeps}
use ultiproxy.Auth.Manager.Tokens.{revoked-Renewed, get_valid, Renewed}

abbrev key : Text
key = bytes "codex"

abbrev hour : ℕ
hour = 3600 * second

abbrev cred : Credential
cred = record {
  tenant = [];
  provider = key;
  access_token = bytes "t1";
  refresh_token = bytes "r";
  expires_at = 3 * hour;
  generation = 4;
  client_id = [];
  project_id = [];
}

abbrev disk : List (Text × File)
disk = (key, holds cred) ∷ []

abbrev clock : Clock
clock = record { now = hour; flight_now = hour + 1; after_refresh = hour + 2 }

-- A refresher that gives a new token and leaves the generation.
abbrev refresh : Credential → Option Credential
refresh c = some (record c { access_token = bytes "t2" })

abbrev calls : List Call
calls = invalidates key (bytes "t1") ∷ gets key clock (some refresh) true ∷ []

abbrev renewed : Credential
renewed = record cred { access_token = bytes "t2"; generation = 5 }

-- Another token of the same generation.
abbrev renewed_alike : Credential
renewed_alike = record cred { access_token = bytes "t3" }

restart_keeps_example :
    (cached_or_loaded key (new_manager (run (new_manager disk) calls).disk)).1 ≡ ok renewed
unfolding run step invalidate get get_from get_found cached_or_loaded load_from_disk flight
    refresh_latest answered adopt adopted persist publish is_stale bumped is_usable is_fresh
    revoked_key new_manager lookup insert erase text_eq time_sub
restart_keeps_example = restart_keeps disk calls key renewed refl

-- Two overlapping Stores of one generation: the second one's persist and publish come between
-- those of the first. The token in memory is then not the one of the file.
abbrev stored_twice : Manager
stored_twice =
    let first = (persist key cred true (new_manager [])).0 in
    let second = publish key renewed_alike (persist key renewed_alike true first).0 in
    publish key cred second

overlapping_stores :
    (lookup key stored_twice.cache ≡ some cred)
    × (lookup key stored_twice.disk ≡ some (holds renewed_alike))
unfolding new_manager persist publish is_stale lookup insert erase text_eq
overlapping_stores = (refl, refl)

abbrev revoked : Manager
revoked = record { cache = (key, cred) ∷ []; revoked = (key, tt) ∷ []; disk = disk }

revoked-Renewed_example :
    Renewed key (some refresh) renewed (get key clock (some refresh) true revoked).0
unfolding get get_from get_found cached_or_loaded load_from_disk flight refresh_latest answered
    adopt adopted persist publish is_stale bumped is_usable is_fresh revoked_key lookup insert erase
    text_eq time_sub
revoked-Renewed_example = revoked-Renewed key clock refresh true revoked renewed refl refl

get_valid_example :
    (hour ≤ 3 * hour) ⊎ Renewed key none cred (get key clock none true (new_manager disk)).0
unfolding get get_from get_found cached_or_loaded load_from_disk is_usable is_fresh revoked_key
    new_manager lookup text_eq time_sub
get_valid_example =
    get_valid key clock none true (new_manager disk) cred (omega arith) (omega arith) refl
