-- ===== src/Server/Options.antt =====
-- The options that dispatchRequest of pkg/server/handlers.go sends a request upstream with, and the
-- cost of its usage.
pub mod Effective
mod Examples
use ultiproxy.Base.{
  Bool, true, false, ◌&&◌, ◌||◌, Option, none, some, List, [], ◌∷◌, ◌++◌, Text, ℤ, pos, ltb_ℤ,
  leb_ℤ, is_nonpos, Float, if◌then◌else◌,
}
use ultiproxy.Provider.Options as Options
use ultiproxy.Provider.Options.{
  RequestConfig, RequestOption, new_request_config, with_model, with_max_tokens, with_temperature,
  with_reasoning_effort, with_extra_body, with_cost, with_client_key_hash,
}
use ultiproxy.Codec.Options as Decoded
use ultiproxy.Codec.Options.{Extra, ProviderOption}
use ultiproxy.Server.Catalog.{ModelAlias}

-- The options of a decoded request (pkg/codec) as functions.
unfoldable pub decoded_option : {F : Type 0} → ProviderOption → RequestOption F Extra
decoded_option (Decoded.with_model m) = with_model m
decoded_option (Decoded.with_max_tokens n) = with_max_tokens n
decoded_option (Decoded.with_temperature t) = with_temperature t
decoded_option (Decoded.with_reasoning_effort e) = with_reasoning_effort e
decoded_option (Decoded.with_extra_body kv) = with_extra_body kv

module _ (fl : Float) where
  open fl use {F, of_int, lt}

  abbrev pub zero_float : F
  zero_float = of_int (pos 0)

  unfoldable pub is_priced : ModelAlias F → Bool
  is_priced a = lt zero_float a.input_cost || lt zero_float a.output_cost

module _ (fl : Float) {E : Type 0} where
  open fl use {F}

  abbrev pub priced : ModelAlias F → List (RequestOption F E)
  priced a = if is_priced fl a then with_cost a.input_cost a.output_cost ∷ [] else []

  -- The clamp of max_tokens, after the other options.
  unfoldable pub clamped : ModelAlias F → List (RequestOption F E) → List (RequestOption F E)
  clamped a opts =
      let asked = (new_request_config (zero_float fl) opts).max_tokens in
      if is_nonpos a.max_output
      then opts
      else if ltb_ℤ (pos 0) asked && leb_ℤ asked a.max_output
      then opts
      else opts ++ (with_max_tokens a.max_output ∷ [])

  -- upstreamOptions; `none` is a request whose model is no alias.
  unfoldable pub upstream_options :
      List (RequestOption F E) → Text → Option (ModelAlias F) → Text → List (RequestOption F E)
  upstream_options base upstream none key =
      base ++ (with_client_key_hash key ∷ with_model upstream ∷ [])
  upstream_options base upstream (some a) key =
      clamped a (base ++ (with_client_key_hash key ∷ with_model upstream ∷ []) ++ priced a)
