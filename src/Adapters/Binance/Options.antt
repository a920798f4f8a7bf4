-- ===== src/Adapters/Binance/Options.antt =====
-- `BinanceOptions` and the signing of requests (v_exchanges_adapters/src/exchanges/binance.rs).
-- Secrets are texts; HMAC, the printing of numbers, and the query string of a list of pairs are the
-- libraries'. Durations are nanoseconds.
pub mod Signatures
use v_exchanges.Prelude.{
  ℕ, ◌/◌, ◌%◌, Bool, true, false, not, Option, none, some, List, [], ◌∷◌, ◌++◌, Result, ok, err,
  Text, codes, is_none, u64_mod,
}
use v_exchanges.Http.Errors
use v_exchanges.Http.Errors.{ConstructAuthError, BuildError}
use v_exchanges.Adapters.Binance.Urls.{BinanceHttpUrl, BinanceWsUrl, unmodified, ws_unmodified}

pub data BinanceAuth : Type 0 where
  sign key no_auth : BinanceAuth

-- The configuration of WebSocket connections is of a type of its own.
pub record BinanceOptions (WsConfig : Type 0) : Type 0 where
  pub pubkey : Option Text
  pub secret : Option Text
  pub recv_window : Option ℕ
  pub http_url : BinanceHttpUrl
  pub http_auth : BinanceAuth
  pub ws_url : BinanceWsUrl
  pub ws_config : WsConfig
  pub ws_topics : List Text
  pub test : Bool
  pub book_snapshot_freq : Option ℕ

pub data BinanceOption (WsConfig : Type 0) : Type 0 where
  unset : BinanceOption WsConfig
  set_pubkey set_secret : Text → BinanceOption WsConfig
  set_test : Bool → BinanceOption WsConfig
  set_recv_window : ℕ → BinanceOption WsConfig
  set_book_snapshot_freq : Option ℕ → BinanceOption WsConfig
  set_http_url : BinanceHttpUrl → BinanceOption WsConfig
  set_http_auth : BinanceAuth → BinanceOption WsConfig
  set_ws_url : BinanceWsUrl → BinanceOption WsConfig
  set_ws_config : WsConfig → BinanceOption WsConfig
  set_ws_topics : List Text → BinanceOption WsConfig

-- `update`; the set of topics is the list of what was given.
unfoldable pub update :
    {WsConfig : Type 0} → BinanceOption WsConfig → BinanceOptions WsConfig → BinanceOptions WsConfig
update unset o = o
update (set_pubkey v) o = record o { pubkey = some v }
update (set_recv_window v) o = record o { recv_window = some v }
update (set_test v) o = record o { test = v }
update (set_secret v) o = record o { secret = some v }
update (set_http_url v) o = record o { http_url = v }
update (set_http_auth v) o = record o { http_auth = v }
update (set_ws_url v) o = record o { ws_url = v }
update (set_ws_config v) o = record o { ws_config = v }
update (set_ws_topics v) o = record o { ws_topics = v }
update (set_book_snapshot_freq v) o = record o { book_snapshot_freq = v }

abbrev pub is_authenticated : {WsConfig : Type 0} → BinanceOptions WsConfig → Bool
is_authenticated o = not (is_none o.pubkey)

-- A request, as far as the handler sets it.
pub record Request : Type 0 where
  pub api_key : Option Text
  pub query : List (Text × Text)
  pub body : Text

pub record Signing : Type 0 where
  pub to_text : ℕ → Text
  pub query_string : List (Text × Text) → Text
  -- The hexadecimal HMAC-SHA256 of a message under a secret.
  pub hmac : Text → Text → Text

module _ {WsConfig : Type 0} (lib : Signing) (options : BinanceOptions WsConfig) where
  open lib use {to_text, query_string, hmac}

  -- The parameters that are added before the signature, at `timestamp` milliseconds.
  abbrev pub dated : ℕ → List (Text × Text) → List (Text × Text)
  dated timestamp query =
      let stamped = query ++ (codes "timestamp", to_text timestamp) ∷ [] in
      elim options.recv_window [
        | none ↦ stamped
        | some window ↦
            stamped ++ (codes "recvWindow", to_text ((window / 1_000_000) % u64_mod)) ∷ []
      ]

  abbrev pub signed : Text → List (Text × Text) → Text → List (Text × Text)
  signed secret query body =
      query ++ (codes "signature", hmac secret (query_string query ++ body)) ∷ []

  -- `build_request` on a builder with a query, and the encoded body if there is one.
  unfoldable pub build_request :
      ℕ → List (Text × Text) → Option (Result Text Text) → Result BuildError Request
  build_request timestamp query body = elim body [
    | some (err e) ↦ err (Errors.url_serialization e)
    | some (ok text) ↦ authenticate text
    | none ↦ authenticate []
  ]
    where
      authenticate : Text → Result BuildError Request
      authenticate body = elim options.http_auth [
        | no_auth ↦ ok (record { api_key = none; query = query; body = body })
        | key ↦ elim options.pubkey [
          | none ↦ err (BuildError.auth ConstructAuthError.missing_pubkey)
          | some k ↦ ok (record { api_key = some k; query = query; body = body })
        ]
        | sign ↦ elim options.pubkey [
          | none ↦ err (BuildError.auth ConstructAuthError.missing_pubkey)
          | some k ↦ elim options.secret [
            | none ↦ err (BuildError.auth ConstructAuthError.missing_secret)
            | some s ↦ ok (record {
              api_key = some k;
              query = signed s (dated timestamp query) body;
              body = body;
            })
          ]
        ]
      ]
