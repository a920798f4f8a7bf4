-- ===== src/Adapters/Access.antt =====
-- What the handlers of bitFlyer and Coincheck (v_exchanges_adapters/src/exchanges) have in common:
-- their requests, the headers of a signed one, and how responses are read. HMAC, JSON, the printing
-- of numbers and of statuses, and what a header may hold are the libraries'.
pub mod Covered
pub mod Unbanned
use v_exchanges.Prelude.{
  ℕ, ◌%◌, ◌&&◌, ◌++◌, Bool, true, false, Option, none, some, [], Result, ok, err, Text, codes, leb,
  ltb, u64_mod, if◌then◌else◌, ◌>>=◌,
}
use v_exchanges.Http.Errors
use v_exchanges.Http.Errors.{ConstructAuthError, BuildError, ApiError, HandleError, UrlError}

-- A request, as far as the handlers read or set it; `url` is the whole URL.
pub record Request : Type 0 where
  pub method : Text
  pub url : Text
  pub path : Text
  pub query : Option Text
  pub body : Option Text
  pub content_type : Option Text
  pub access_key : Option Text
  pub access_time : Option Text
  pub access_sign : Option Text

pub record Libraries : Type 0 where
  pub to_text : ℕ → Text
  -- The hexadecimal HMAC-SHA256 of a message under a secret.
  pub hmac : Text → Text → Text
  -- Why a text is no value of a header, if it is none.
  pub header_error : Text → Option Text

abbrev pub body_text : Request → Text
body_text r = elim r.body [ none ↦ [] | some b ↦ b ]

-- `as_millis() as u64`
abbrev pub stamp : ℕ → ℕ
stamp timestamp = timestamp % u64_mod

abbrev pub with_body : Text → Option Text → Request → Request
with_body type none r = r
with_body type (some t) r = record r { body = some t; content_type = some type }

abbrev pub encoded : Option (Result Text Text) → Result Text (Option Text)
encoded none = ok none
encoded (some (ok t)) = ok (some t)
encoded (some (err e)) = err e

module _ (lib : Libraries) where
  open lib use {to_text, hmac, header_error}

  -- The headers of the key, the time, and the signature of `contents`.
  unfoldable pub sign_with :
      Option Text → Option Text → ℕ → Text → Request → Result BuildError Request
  sign_with secret key timestamp contents r = elim secret [
    | none ↦ err (BuildError.auth ConstructAuthError.missing_secret)
    | some s ↦ elim key [
      | none ↦ err (BuildError.auth ConstructAuthError.missing_pubkey)
      | some k ↦ elim (header_error k) [
        | some e ↦ err (BuildError.auth (ConstructAuthError.invalid_character_in_api_key e))
        | none ↦ ok (record r {
          access_key = some k;
          access_time = some (to_text (stamp timestamp));
          access_sign = some (hmac s contents);
        })
      ]
    ]
  ]

pub record Decoder (Body S : Type 0) : Type 0 where
  pub from_slice : Body → Result Text S
  -- The JSON of a body, as text.
  pub value_from_slice : Body → Result Text Text
  pub show_status : ℕ → Text

module _ {Body S : Type 0} (decoder : Decoder Body S) (name : Text) where
  open decoder use {from_slice, value_from_slice, show_status}

  unfoldable pub handle_response : ℕ → Body → Result HandleError S
  handle_response status body =
      if leb 200 status && ltb status 300
      then elim (from_slice body) [ ok s ↦ ok s | err e ↦ err (Errors.parse e) ]
      else elim (value_from_slice body) [
        | err e ↦ err (Errors.parse e)
        | ok value ↦ err (
            HandleError.api (
              ApiError.other (
                name ++ codes " API error (status " ++ show_status status ++ codes "): " ++ value)))
      ]

-- `base_url`: there is no test network (a panic), and a text that is no URL is an error.
unfoldable pub base_url :
    {Url : Type 0} → (Text → Result Text Url) → Text → Bool → Option (Result UrlError Url)
base_url parse url true = none
base_url parse url false = elim (parse url) [
  | ok u ↦ some (ok u)
  | err e ↦ some (err (Errors.UrlError.parse e))
]
