-- ===== src/Auth/Manager/Written.antt =====
-- What a persist and a load do to the cache and the directory.
use ultiproxy.Base.{
  ◌≡◌, ap, inl, inr, ◌⊎◌, Bool, false, none, some, Text, lookup, insert, lookup-insert, arith,
  Option-cases, Bool-cases,
}
use ultiproxy.Auth.Manager.{
  Credential, holds, corrupt, unreadable, AuthError, not_found, corrupt_file, unreadable_file,
  generation_stale, persist_failed, Result, ok, err, Manager, persist, is_stale, publish, store,
  cached_or_loaded, load_from_disk, stored, adopted, adopt,
}

-- What is cached for a key is what its file holds.
abbrev pub IsCoherent : Manager → Type 0
IsCoherent m =
    (key : Text) (cred : Credential)
    → lookup key m.cache ≡ some cred
    → lookup key m.disk ≡ some (holds cred)

-- Writing the file and then the cache.
abbrev pub written_through : Text → Credential → Manager → Manager
written_through key cred m = publish key cred (record m { disk = insert key (holds cred) m.disk })

pub written_through-IsCoherent :
    (key : Text) (cred : Credential) (m : Manager)
    → IsCoherent m
    → IsCoherent (written_through key cred m)
unfolding publish
written_through-IsCoherent key cred m h k c e =
    ground (arith, h k c, lookup-insert key k cred m.cache, lookup-insert key k (holds cred) m.disk)

-- A persist does nothing and says why, or writes the file.
pub persist_cases :
    (key : Text) (cred : Credential) (written : Bool) (m : Manager)
    → ((x : AuthError) × (persist key cred written m ≡ (m, some x)))
      ⊎ (persist key cred written m ≡ (record m { disk = insert key (holds cred) m.disk }, none))
        × (is_stale cred (lookup key m.disk) ≡ false)
unfolding persist
persist_cases key cred written m = elim (Bool-cases (is_stale cred (lookup key m.disk))) [
  | inl e ↦ inl (generation_stale, ground arith)
  | inr e ↦ elim (Bool-cases written) [
    | inl w ↦ inr (ground arith)
    | inr w ↦ inl (persist_failed, ground arith)
  ]
]

-- What is put after a persist leaves the manager as it is, or has written the credential through.
abbrev pub Written : Text → Credential → Manager → Manager → Type 0
Written key cred m m' =
    (m' ≡ m) ⊎ (m' ≡ written_through key cred m) × (is_stale cred (lookup key m.disk) ≡ false)

pub store-Written :
    (key : Text) (cred : Credential) (written : Bool) (m : Manager)
    → Written key cred m (store key cred written m).0
unfolding store stored
store-Written key cred written m = elim (persist_cases key cred written m) [
  | inl (x, e) ↦ inl (ap (λ r. (stored key cred r).0) e)
  | inr (e, s) ↦ inr (ap (λ r. (stored key cred r).0) e, s)
]

pub adopt-Written :
    (key : Text) (cred : Credential) (written : Bool) (m : Manager)
    → Written key cred m (adopt key cred written m).0
unfolding adopt adopted
adopt-Written key cred written m = elim (persist_cases key cred written m) [
  | inl (x, e) ↦ inl (ap (λ r. (adopted key cred r).0) e)
  | inr (e, s) ↦ inr (ap (λ r. (adopted key cred r).0) e, s)
]

-- A load finds nothing, or caches what the file holds.
abbrev Loaded : Text → Manager → Manager × Result Credential → Type 0
Loaded key m r =
    ((e : AuthError) × (r ≡ (m, err e)))
    ⊎ ((cred : Credential) × (r ≡ (m, ok cred)) × (lookup key m.cache ≡ some cred))
    ⊎ ((cred : Credential) × (r ≡ (record m { cache = insert key cred m.cache }, ok cred))
        × (lookup key m.disk ≡ some (holds cred)))

pub load-Loaded : (key : Text) (m : Manager) → Loaded key m (cached_or_loaded key m)
unfolding cached_or_loaded load_from_disk
load-Loaded key m = elim (Option-cases (lookup key m.cache)) [
  | inr (cred, e) ↦ inr (inl (cred, ground arith, e))
  | inl e ↦ elim (Option-cases (lookup key m.disk)) [
    | inl k ↦ inl (not_found, ground arith)
    | inr (holds cred, k) ↦ inr (inr (cred, ground arith, k))
    | inr (corrupt, k) ↦ inl (corrupt_file, ground arith)
    | inr (unreadable, k) ↦ inl (unreadable_file, ground arith)
  ]
]
