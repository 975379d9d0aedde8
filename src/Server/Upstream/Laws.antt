-- ===== src/Server/Upstream/Laws.antt =====
-- What goes upstream and what comes back to the client.
use ultiproxy.Base.{
  ℕ, ◌≤◌, ◌<◌, ◌≡◌, refl, inl, inr, ◌⊎◌, false, Option, none, some, [], ◌∷◌, ◌++◌, Text, is_empty,
  to_lower, text_eq_iff, arith, Option-cases,
}
use ultiproxy.Server.Models.{slash}
use ultiproxy.Server.Router.Lanes.{has_slash}
use ultiproxy.Server.Upstream.{
  cut, strip_provider_prefix, LaneError, classify_http_status, sniff, classify_upstream_error,
}

cut-append : (p m : Text) → has_slash p ≡ false → cut (p ++ slash ++ m) ≡ some (p, m)
unfolding cut has_slash
cut-append [] m h = refl
cut-append (c ∷ p) m h = ground (arith, cut-append p m)

-- A lane's prefix, in whatever case it is written, is taken off before the model goes upstream.
pub strip_provider_prefix-append :
    (p m lane : Text)
    → is_empty p ≡ false
    → has_slash p ≡ false
    → to_lower p ≡ to_lower lane
    → strip_provider_prefix (p ++ slash ++ m) lane ≡ m
unfolding strip_provider_prefix to_lower
strip_provider_prefix-append [] m lane e h k = cc
strip_provider_prefix-append (c ∷ p) m [] e h k = cc
strip_provider_prefix-append (c ∷ p) m (d ∷ lane) e h k =
    ground (arith, cut-append (c ∷ p) m h, text_eq_iff (to_lower (c ∷ p)) (to_lower (d ∷ lane)))

classify_http_status-range :
    (code : ℕ) (msg : Text)
    → let s = (classify_http_status code msg).status in (s ≡ 502) ⊎ (400 ≤ s) × (s < 500)
unfolding classify_http_status
classify_http_status-range code msg = ground arith

sniff-range :
    (lower msg : Text) → let s = (sniff lower msg).status in (s ≡ 502) ⊎ (400 ≤ s) × (s < 500)
unfolding sniff
sniff-range lower msg = ground arith

-- Whatever a lane fails with, the client is told of a bad gateway or of an error of the request:
-- never of a success, nor of any other fault of the server.
pub classify_upstream_error-range :
    (e : Option LaneError) (fallback : Text)
    → let s = (classify_upstream_error e fallback).status in (s ≡ 502) ⊎ (400 ≤ s) × (s < 500)
unfolding classify_upstream_error
classify_upstream_error-range none fallback = inl refl
classify_upstream_error-range (some e) fallback = elim (Option-cases e.http_status) [
  | inl k ↦ ground (arith, sniff-range (to_lower e.message) e.message)
  | inr (code, k) ↦ ground (arith, classify_http_status-range code e.message)
]
