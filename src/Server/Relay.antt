-- ===== src/Server/Relay.antt =====
-- crates/devsite-iroh/src/lib.rs: the relay settings that the control plane gives to an endpoint. A
-- token of Iroh Services and the parser of relay URLs are parameters.
use devsite.Prelude.{
  ℕ, Bool, not, Option, some, none, List, [], ◌∷◌, map, Text, filter, length, ◌==◌,
}
use devsite.Prelude.Texts.{split}
use devsite.Proto.Crypto.{KeyBytes}
use devsite.Server.Env.{trim}

pub record RelayAccess : Type 0 where
  pub relay_token : Option Text
  pub relay_urls : List Text

-- `none` in `api_secret` is a server without one; a relay URL is its text.
pub record RelayConfig : Type 0 where
  pub api_secret : Option ℕ
  pub relay_urls : List Text

-- `relay_token` of the secret and the endpoint, which may fail.
module _ (relay_token : ℕ → KeyBytes → Option Text) where
  unfoldable pub access : RelayConfig → KeyBytes → Option RelayAccess
  access config endpoint_key = elim config.api_secret [
    | none ↦ some (record { relay_token = none; relay_urls = config.relay_urls })
    | some secret ↦ elim (relay_token secret endpoint_key) [
      | none ↦ none
      | some token ↦ some (record { relay_token = some token; relay_urls = config.relay_urls })
    ]
  ]

abbrev is_empty : Text → Bool
is_empty t = length t == 0

-- `collect` of the results: the first failure is that of all.
unfoldable pub parse_each : (Text → Option Text) → List Text → Option (List Text)
parse_each parse [] = some []
parse_each parse (t ∷ ts) = elim (parse t) [
  | none ↦ none
  | some url ↦ elim (parse_each parse ts) [ none ↦ none | some urls ↦ some (url ∷ urls) ]
]

-- `parse` is `RelayUrl::from_str`, back as a text.
unfoldable pub parse_relay_urls : (ℕ → Bool) → (Text → Option Text) → Text → Option (List Text)
unfolding split trim parse_each
parse_relay_urls is_whitespace parse value =
    parse_each parse (filter (λ t. not (is_empty t)) (map (trim is_whitespace) (split b',' value)))
