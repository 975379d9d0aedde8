-- ===== src/Server/Options/Examples.antt =====
-- The options of a request at a concrete alias, with integers for floats.
use ultiproxy.Base.{◌≡◌, refl, true, some, List, [], ◌∷◌, bytes, ℤ, pos, ltb_ℤ, leb_ℤ, Float}
use ultiproxy.Codec.Options as Decoded
use ultiproxy.Codec.Options.{Extra}
use ultiproxy.Provider.Options.{RequestOption, new_request_config}
use ultiproxy.Server.Catalog.{ModelAlias}
use ultiproxy.Server.Options.{decoded_option, upstream_options}
use ultiproxy.Server.Options.Effective.{sent, upstream_options-sent, cap_kept}

abbrev integers : Float
integers = record {
  F = ℤ;
  of_int = λ n. n;
  to_int = λ n. n;
  add = λ x y. y;
  sub = λ x y. x;
  mul = λ x y. x;
  lt = ltb_ℤ;
  le = leb_ℤ;
}

abbrev glm : ModelAlias ℤ
glm = record {
  provider = bytes "zai";
  upstream = bytes "glm-5";
  context_limit = pos 0;
  max_output = pos 500;
  pricing_tag = [];
  input_cost = pos 2;
  output_cost = pos 0;
  input_modalities = [];
  output_modalities = [];
}

-- The client asks for 4000 tokens of the alias.
abbrev asked : List (RequestOption ℤ Extra)
asked =
    decoded_option (Decoded.with_model (bytes "fast"))
    ∷ decoded_option (Decoded.with_max_tokens (pos 4000))
    ∷ []

upstream_options-sent_example :
    new_request_config
      (pos 0)
      (upstream_options integers asked (bytes "glm-5") (some glm) (bytes "key"))
    ≡ sent integers (bytes "glm-5") (some glm) (bytes "key") (new_request_config (pos 0) asked)
upstream_options-sent_example =
    upstream_options-sent integers asked (bytes "glm-5") (some glm) (bytes "key")

cap_kept_example :
    let n =
      (new_request_config
        (pos 0)
        (upstream_options integers asked (bytes "glm-5") (some glm) (bytes "key"))).max_tokens in
    (ltb_ℤ (pos 0) n ≡ true) × (leb_ℤ n (pos 500) ≡ true)
cap_kept_example = cap_kept integers asked (bytes "glm-5") (bytes "key") glm 499 refl
