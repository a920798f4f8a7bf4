-- ===== src/Adapters/Traits.antt =====
-- The traits of v_exchanges_adapters/src/traits.rs, and the parts that every adapter's request and
-- stream handlers repeat. Parsing of URLs is the URL library's, and the `unwrap` of a text that is
-- no URL is a panic, `none`.
pub mod Networks
use v_exchanges.Prelude.{
  Bool, true, false, Option, none, some, List, [], ◌∷◌, ◌++◌, Result, ok, err, Text, text_beq,
  ◌>>=◌, if◌then◌else◌,
}
use v_exchanges.Http.Errors
use v_exchanges.Http.Errors.{UrlError}

-- Base URLs as texts; the test network may have none.
pub record EndpointUrl (E : Type 0) : Type 0 where
  pub url_mainnet : E → Text
  pub url_testnet : E → Option Text

pub record HandlerOptions (Options OptionItem : Type 0) : Type 0 where
  pub update : OptionItem → Options → Options
  pub is_authenticated : Options → Bool

module _ {Url E : Type 0} ⦃endpoint : EndpointUrl E⦄ (parse : Text → Option Url) where
  open endpoint use {url_mainnet, url_testnet}

  -- `base_url` of the request handlers; `MissingTestnet` carries the URL of the main network.
  unfoldable pub base_url : E → Bool → Option (Result UrlError Url)
  base_url url true = elim (url_testnet url) [
    | some testnet ↦ parse testnet >>= (λ u. some (ok u))
    | none ↦
        parse (url_mainnet url) >>= (λ _. some (err (Errors.missing_testnet (url_mainnet url))))
  ]
  base_url url false = parse (url_mainnet url) >>= (λ u. some (ok u))

-- A `WsConfig`, as far as the adapters set it; the rest is `rest`.
pub record StreamConfig (Url Rest : Type 0) : Type 0 where
  pub url : Option Url
  pub topics : List Text
  pub rest : Rest

abbrev pub contains : List Text → Text → Bool
contains [] topic = false
contains (t ∷ ts) topic = if text_beq t topic then true else contains ts topic

-- The union of two sets, each given by a list of its elements.
abbrev pub union : List Text → List Text → List Text
union topics [] = topics
union topics (t ∷ ts) = let rest = union topics ts in if contains topics t then rest else t ∷ rest

module _ {Url Rest E : Type 0} ⦃endpoint : EndpointUrl E⦄ (parse : Text → Option Url) where
  -- `config` of the stream handlers. The endpoint is `none` where the URL is left as it is.
  unfoldable pub stream_config :
      Option E
      → Bool
      → List Text
      → StreamConfig Url Rest
      → Option (Result UrlError (StreamConfig Url Rest))
  stream_config none test topics c = some (ok (record c { topics = union c.topics topics }))
  stream_config (some url) test topics c = base_url parse url test >>= λ r. some (elim r [
    | err e ↦ err e
    | ok u ↦ ok (record c { url = some u; topics = union c.topics topics })
  ])
