-- ===== src/Provider/Options.antt =====
-- The options of a request to a lane: pkg/provider/options.go. An option is a function on the
-- request's configuration, as in the source; `E` is what an extra field holds. A temperature is the
-- text of its number.
use ultiproxy.Base.{Option, none, some, List, [], ◌∷◌, Text, ℤ, pos, Duration, insert, erase_all}

pub record RequestConfig (F E : Type 0) : Type 0 where
  pub model : Text
  pub max_tokens : ℤ
  pub temperature : Option Text
  pub reasoning_effort : Text
  pub headers : List (Text × Text)
  pub extra_body : List (Text × E)
  pub timeout : Duration
  pub client_key_hash : Text
  pub input_cost_per_million : F
  pub output_cost_per_million : F

-- provider.Option; a nil one is skipped.
abbrev pub RequestOption : Type 0 → Type 0 → Type 0
RequestOption F E = Option (RequestConfig F E → RequestConfig F E)

-- `for k, v := range kv { c.ExtraBody[k] = v }`.
unfoldable pub merged : {E : Type 0} → List (Text × E) → List (Text × E) → List (Text × E)
merged [] body = body
merged ((k, v) ∷ kv) body = insert k v (merged kv body)

module _ {F E : Type 0} where
  abbrev pub applied : RequestOption F E → RequestConfig F E → RequestConfig F E
  applied none c = c
  applied (some f) c = f c

  unfoldable pub apply_options : List (RequestOption F E) → RequestConfig F E → RequestConfig F E
  apply_options [] c = c
  apply_options (o ∷ os) c = apply_options os (applied o c)

  abbrev pub with_model : Text → RequestOption F E
  with_model m = some (λ c. record c { model = m })

  abbrev pub with_max_tokens : ℤ → RequestOption F E
  with_max_tokens n = some (λ c. record c { max_tokens = n })

  abbrev pub with_temperature : Text → RequestOption F E
  with_temperature t = some (λ c. record c { temperature = some t })

  abbrev pub with_timeout : Duration → RequestOption F E
  with_timeout d = some (λ c. record c { timeout = d })

  abbrev pub with_reasoning_effort : Text → RequestOption F E
  with_reasoning_effort e = some (λ c. record c { reasoning_effort = e })

  abbrev pub with_header : Text → Text → RequestOption F E
  with_header k v = some (λ c. record c { headers = insert k v c.headers })

  abbrev pub with_extra_body : List (Text × E) → RequestOption F E
  with_extra_body kv = some (λ c. record c { extra_body = merged kv c.extra_body })

  abbrev pub without_extra_key : List Text → RequestOption F E
  without_extra_key ks = some (λ c. record c { extra_body = erase_all ks c.extra_body })

  abbrev pub with_cost : F → F → RequestOption F E
  with_cost input output =
      some (λ c. record c { input_cost_per_million = input; output_cost_per_million = output })

  abbrev pub with_client_key_hash : Text → RequestOption F E
  with_client_key_hash h = some (λ c. record c { client_key_hash = h })

  -- NewRequestConfig; `zero` is the float64 0.
  unfoldable pub new_request_config : F → List (RequestOption F E) → RequestConfig F E
  new_request_config zero os = apply_options os (record {
    model = [];
    max_tokens = pos 0;
    temperature = none;
    reasoning_effort = [];
    headers = [];
    extra_body = [];
    timeout = pos 0;
    client_key_hash = [];
    input_cost_per_million = zero;
    output_cost_per_million = zero;
  })
