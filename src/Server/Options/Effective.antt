-- ===== src/Server/Options/Effective.antt =====
-- What a lane is asked for, after all the options of pkg/server/handlers.go.
use ultiproxy.Base.{
  ◌≡◌, refl, ◌∙◌, ap, true, ◌&&◌, ◌||◌, Option, none, some, List, [], ◌∷◌, ◌++◌, Text, ℕ, ℤ, pos,
  suc, ltb_ℤ, leb_ℤ, is_nonpos, Float, if◌then◌else◌, Bool-cases, inl, inr, arith,
}
use ultiproxy.Provider.Options.{
  RequestConfig, RequestOption, apply_options, new_request_config, with_max_tokens, with_model,
  with_client_key_hash,
}
use ultiproxy.Server.Catalog.{ModelAlias}
use ultiproxy.Server.Options.{zero_float, is_priced, priced, clamped, upstream_options}

apply_options-append :
    {F E : Type 0} (os ps : List (RequestOption F E)) (c : RequestConfig F E)
    → apply_options (os ++ ps) c ≡ apply_options ps (apply_options os c)
unfolding apply_options
apply_options-append [] ps c = refl
apply_options-append (o ∷ os) ps c = apply_options-append os ps _

config-append :
    {F E : Type 0} (zero : F) (os ps : List (RequestOption F E))
    → new_request_config zero (os ++ ps) ≡ apply_options ps (new_request_config zero os)
unfolding new_request_config
config-append zero os ps = apply_options-append os ps _

-- The tokens that an alias with a limit lets a request ask for: no more than the limit, and the
-- limit where it asks for none.
abbrev pub capped : ℤ → ℤ → ℤ
capped limit asked =
    if is_nonpos limit || (ltb_ℤ (pos 0) asked && leb_ℤ asked limit) then asked else limit

module _ (fl : Float) {E : Type 0} where
  open fl use {F}

  -- The configuration that the client asked for, with what the proxy decides.
  abbrev pub sent : Text → Option (ModelAlias F) → Text → RequestConfig F E → RequestConfig F E
  sent upstream none key c = record c { model = upstream; client_key_hash = key }
  sent upstream (some a) key c = record c {
    model = upstream;
    client_key_hash = key;
    max_tokens = capped a.max_output c.max_tokens;
    input_cost_per_million = if is_priced fl a then a.input_cost else c.input_cost_per_million;
    output_cost_per_million = if is_priced fl a then a.output_cost else c.output_cost_per_million;
  }

  abbrev limited : ModelAlias F → RequestConfig F E → RequestConfig F E
  limited a c = record c { max_tokens = capped a.max_output c.max_tokens }

  clamped-config :
      (a : ModelAlias F) (opts : List (RequestOption F E))
      → new_request_config (zero_float fl) (clamped fl a opts)
        ≡ limited a (new_request_config (zero_float fl) opts)
  unfolding clamped apply_options
  clamped-config a opts =
      let asked = (new_request_config (zero_float fl) opts).max_tokens in
      elim (Bool-cases (is_nonpos a.max_output)) [
        | inl e ↦ rw e refl
        | inr e ↦ elim (Bool-cases (ltb_ℤ (pos 0) asked && leb_ℤ asked a.max_output)) [
          | inl h ↦ rw (e, h) refl
          | inr h ↦
              rw (e, h) (config-append (zero_float fl) opts (with_max_tokens a.max_output ∷ []))
        ]
      ]

  abbrev paid : ModelAlias F → RequestConfig F E → RequestConfig F E
  paid a c = record c {
    input_cost_per_million = if is_priced fl a then a.input_cost else c.input_cost_per_million;
    output_cost_per_million = if is_priced fl a then a.output_cost else c.output_cost_per_million;
  }

  priced-config :
      (a : ModelAlias F) (c : RequestConfig F E) → apply_options (priced fl a) c ≡ paid a c
  unfolding apply_options
  priced-config a c = elim (Bool-cases (is_priced fl a)) [ inl e ↦ rw e refl | inr e ↦ rw e refl ]

  -- Every lane is asked for the resolved model in the client's name, at the alias' prices if it has
  -- any, for no more tokens than the alias allows; everything else is as the client asked for it,
  -- whatever options the codec has made of the request.
  pub upstream_options-sent :
      (base : List (RequestOption F E)) (upstream : Text) (alias : Option (ModelAlias F))
      (key : Text)
      → new_request_config (zero_float fl) (upstream_options fl base upstream alias key)
        ≡ sent upstream alias key (new_request_config (zero_float fl) base)
  unfolding upstream_options apply_options
  upstream_options-sent base upstream none key = config-append (zero_float fl) base _
  upstream_options-sent base upstream (some a) key =
      let identity : List (RequestOption F E) =
        with_client_key_hash key ∷ with_model upstream ∷ [] in
      clamped-config a (base ++ identity ++ priced fl a)
      ∙ ap (limited a) (
          config-append (zero_float fl) (base ++ identity) (priced fl a)
          ∙ ap (apply_options (priced fl a)) (config-append (zero_float fl) base identity)
          ∙ priced-config a (apply_options identity (new_request_config (zero_float fl) base)))

-- A request under an alias with a limit never asks a lane for more tokens than the limit, and
-- always for some.
pub cap_kept :
    (fl : Float) {E : Type 0} (base : List (RequestOption fl.F E)) (upstream key : Text)
    (a : ModelAlias fl.F) (n : ℕ)
    → a.max_output ≡ pos (suc n)
    → let asked =
        (new_request_config
          (zero_float fl)
          (upstream_options fl base upstream (some a) key)).max_tokens in
      (ltb_ℤ (pos 0) asked ≡ true) × (leb_ℤ asked (pos (suc n)) ≡ true)
cap_kept fl base upstream key a n h =
    rw (upstream_options-sent fl base upstream (some a) key) (ground (arith, h))
