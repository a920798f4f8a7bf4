-- ===== src/Adapters/Mexc/Signing.antt =====
-- `build_request` of v_exchanges_adapters/src/exchanges/mexc.rs. HMAC, the printing of numbers and
-- what a header may hold are the libraries'; `timestamp` is in milliseconds. `none` is the panic of
-- a builder that was given a key that is no header's value.
pub mod Windows
use v_exchanges.Prelude.{
  ℕ, ◌/◌, ◌%◌, Bool, Option, none, some, [], ◌++◌, Result, ok, err, Text, codes, u64_mod,
  if◌then◌else◌,
}
use v_exchanges.Http.Errors
use v_exchanges.Http.Errors.{ConstructAuthError, BuildError}
use v_exchanges.Adapters.Mexc.Options.{MexcOptions, sign, key, no_auth}

-- A request, as far as the handler reads or sets it.
pub record Request : Type 0 where
  pub is_read : Bool
  pub query : Option Text
  pub body : Option Text
  pub content_type : Option Text
  pub api_key : Option Text
  pub request_time : Option Text
  pub recv_window : Option Text
  pub signature : Option Text

pub record Libraries : Type 0 where
  pub to_text : ℕ → Text
  -- The hexadecimal HMAC-SHA256 of a message under a secret.
  pub hmac : Text → Text → Text
  pub is_header_value : Text → Bool

abbrev pub text_of : Option Text → Text
text_of none = []
text_of (some t) = t

module _ (lib : Libraries) {WsConfig : Type 0} (options : MexcOptions WsConfig) where
  open lib use {to_text, hmac, is_header_value}

  abbrev encoded : Option (Result Text Text) → Result Text (Option Text)
  encoded none = ok none
  encoded (some (ok t)) = ok (some t)
  encoded (some (err e)) = err e

  abbrev with_body : Option Text → Request → Request
  with_body none request = request
  with_body (some form) request = record request {
    body = some form;
    content_type = some (codes "application/x-www-form-urlencoded");
  }

  abbrev pub window_ms : ℕ → ℕ
  window_ms window = (window / 1_000_000) % u64_mod

  -- The headers of the key, the time and the window.
  abbrev keyed : Text → ℕ → Request → Request
  keyed pubkey timestamp request = record request {
    api_key = some pubkey;
    request_time = some (to_text timestamp);
    recv_window = elim options.recv_window [
      | none ↦ request.recv_window
      | some window ↦ some (to_text (window_ms window))
    ];
  }

  -- What a builder with the key makes of a request.
  abbrev built : Text → Request → Option (Result BuildError Request)
  built pubkey request = if is_header_value pubkey then some (ok request) else none

  -- The parameters that are signed: of a GET or DELETE the encoded body, of any other request the
  -- body that it carries.
  abbrev pub param_string : Option Text → Request → Text
  param_string form request = if request.is_read then text_of form else text_of request.body

  unfoldable pub build_request :
      ℕ → Option (Result Text Text) → Request → Option (Result BuildError Request)
  build_request timestamp body request = elim (encoded body) [
    | err e ↦ some (err (Errors.url_serialization e))
    | ok form ↦
        (let sent = with_body form request in
          elim options.http_auth [
            | no_auth ↦ some (ok sent)
            | key ↦ elim options.pubkey [
              | none ↦ some (err (BuildError.auth ConstructAuthError.missing_pubkey))
              | some k ↦ built k (keyed k timestamp sent)
            ]
            | sign ↦ elim options.pubkey [
              | none ↦ some (err (BuildError.auth ConstructAuthError.missing_pubkey))
              | some k ↦ elim options.secret [
                | none ↦ some (err (BuildError.auth ConstructAuthError.missing_secret))
                | some s ↦ built k (record (keyed k timestamp sent) {
                  signature = some (hmac s (k ++ to_text timestamp ++ param_string form sent));
                })
              ]
            ]
          ])
  ]
