-- ===== src/Server/Refresh/InTime.antt =====
-- That the rounds of pkg/server/credential_refresh.go ask for a new credential before one expires.
use ultiproxy.Base.{
  ℕ, ◌+◌, ◌*◌, ◌≤◌, ◌<◌, ◌≡◌, refl, sym, subst, ◌++◌, keys, text_eq_refl, Bool, true, false, ◌&&◌,
  ◌||◌, some, List, [], ◌∷◌, Text, Time, time_sub, ltb_ℤ, ltb, leb, elem, text_eq, text_eq_iff,
  arith, Bool-cases, inl, inr,
}
use ultiproxy.Provider.Registry as Registry
use ultiproxy.Provider.Registry.{Capability, Provider, Registry}
use ultiproxy.Server.Refresh.{
  Lanes, minute, refresh_lead, Refreshed, refresh_lane_credential, refresh_bundle, refresh_names,
  refresh_expiring_credentials, credential_needs_refresh,
}

-- The rounds, after `t`, come at most `d` after each other.
abbrev pub paced : ℕ → Time → List Time → Bool
paced d t [] = true
paced d t (u ∷ us) = (leb t u && leb u (t + d)) && paced d u us

abbrev pub last_of : Time → List Time → Time
last_of t [] = t
last_of t (u ∷ us) = last_of u us

-- Some round before the time `x` calls the lane's Refresh.
abbrev pub asked_before : Lanes → Registry → Text → Time → List Time → Bool
asked_before lanes r name x [] = false
asked_before lanes r name x (t ∷ ts) =
    (ltb t x && elem name (keys (refresh_expiring_credentials lanes r t)))
    || asked_before lanes r name x ts

elem-keys_append :
    (name : Text) (xs ys : List Refreshed)
    → elem name (keys (xs ++ ys)) ≡ (elem name (keys xs) || elem name (keys ys))
unfolding elem
elem-keys_append name [] ys = refl
elem-keys_append name ((n, e) ∷ xs) ys = ground (arith, elem-keys_append name xs ys)

-- The body of the loop calls Refresh.
abbrev Asks : Lanes → Registry → Time → Text → Type 0
Asks lanes r now name =
    elem name (keys (refresh_bundle lanes now name (Registry.get name r))) ≡ true

elem-refresh_names :
    (lanes : Lanes) (r : Registry) (now : Time) (name : Text) (names : List Text)
    → elem name names ≡ true
    → Asks lanes r now name
    → elem name (keys (refresh_names lanes r now names)) ≡ true
unfolding elem refresh_names
elem-refresh_names lanes r now name [] h k = h
elem-refresh_names lanes r now name (n ∷ names) h k =
    let split =
      elem-keys_append name (refresh_bundle lanes now n (Registry.get n r))
        (refresh_names lanes r now names) in
    elim (Bool-cases (text_eq n name)) [
      | inl e ↦
          let asked : elem name (keys (refresh_bundle lanes now n (Registry.get n r))) ≡ true =
            subst (λ m. elem name (keys (refresh_bundle lanes now m (Registry.get m r))) ≡ true)
              (sym ((text_eq_iff n name).0 e)) k in
          ground (arith, split, asked)
      | inr e ↦ ground (arith, split, e, elem-refresh_names lanes r now name names)
    ]

-- An expiry less than the lead away.
time_sub-near : (x t : Time) → x < t + 10 * minute → ltb_ℤ (time_sub x t) refresh_lead ≡ true
unfolding time_sub
time_sub-near x t h = ground arith

is_expiring-near :
    (lanes : Lanes) (p : Provider) (i a : Capability) (x t : Time)
    → p.inference ≡ some i
    → p.auth ≡ some a
    → lanes.token_expires_at i ≡ some (some x)
    → 0 < x
    → x < t + 10 * minute
    → credential_needs_refresh lanes p t refresh_lead ≡ true
unfolding credential_needs_refresh
is_expiring-near lanes p i a x t pi pa px h k =
    rw (pi, pa, px) (ground (arith, time_sub-near x t k))

round_refreshes :
    (lanes : Lanes) (r : Registry) (name : Text) (p : Provider) (i a : Capability) (x t : Time)
    → elem name (Registry.names r) ≡ true
    → Registry.get name r ≡ some p
    → p.inference ≡ some i
    → p.auth ≡ some a
    → lanes.is_refresher a ≡ true
    → lanes.token_expires_at i ≡ some (some x)
    → 0 < x
    → x < t + 10 * minute
    → elem name (keys (refresh_expiring_credentials lanes r t)) ≡ true
unfolding refresh_expiring_credentials refresh_bundle refresh_lane_credential elem
round_refreshes lanes r name p i a x t listed found pi pa can px h k =
    elem-refresh_names lanes r t name (Registry.names r) listed
      (rw (found, is_expiring-near lanes p i a x t pi pa px h k, pa, can, text_eq_refl))

-- If a lane has an expiring credential and can refresh it, the credential has at least ten minutes
-- to live when the loop starts, the rounds come less than ten minutes after each other and go on
-- past the expiry, then some round before the expiry calls the lane's Refresh, as long as it still
-- expires then. Whether that Refresh succeeds is the lane's matter: its error is logged, and a later
-- round calls it again.
pub refreshed_in_time :
    (lanes : Lanes) (r : Registry) (name : Text) (p : Provider) (i a : Capability) (x d t : ℕ)
    (ts : List Time)
    → elem name (Registry.names r) ≡ true
    → Registry.get name r ≡ some p
    → p.inference ≡ some i
    → p.auth ≡ some a
    → lanes.is_refresher a ≡ true
    → lanes.token_expires_at i ≡ some (some x)
    → d < 10 * minute
    → paced d t ts ≡ true
    → t + 10 * minute ≤ x
    → x ≤ last_of t ts
    → asked_before lanes r name x ts ≡ true
refreshed_in_time lanes r name p i a x d t [] listed found pi pa can px hd hp ht hl = ground arith
refreshed_in_time lanes r name p i a x d t (u ∷ us) listed found pi pa can px hd hp ht hl =
    elim (Bool-cases (leb (u + 10 * minute) x)) [
      | inl e ↦
          let later =
            refreshed_in_time lanes r name p i a x d u us listed found pi pa can px hd
              (ground arith) (ground arith) hl in
          ground (arith, later)
      | inr e ↦
          let now =
            round_refreshes lanes r name p i a x u listed found pi pa can px (omega arith)
              (ground arith) in
          ground (arith, now)
    ]
