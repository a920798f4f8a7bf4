-- ===== src/Adapters/Bybit/Signing.antt =====
-- `build_request` of v_exchanges_adapters/src/exchanges/bybit.rs with its two ways of signing.
-- HMAC, the printing of numbers, the encodings of bodies and queries, and what a header may hold
-- are the libraries'. Durations are nanoseconds and `timestamp` is in milliseconds.
pub mod Sorted
pub mod Covered
use v_exchanges.Prelude.{
  ℕ, ◌/◌, ◌%◌, Bool, true, false, Option, none, some, List, [], ◌∷◌, ◌++◌, Result, ok, err, Text,
  codes, u64_mod, if◌then◌else◌, ◌==◌, is_empty, sort, pair_ord, split, map,
}
use v_exchanges.Http.Errors
use v_exchanges.Http.Errors.{ConstructAuthError, BuildError}
use v_exchanges.Adapters.Bybit.Options.{
  BybitOptions, BybitHttpAuth, spot_v1, below_v3, usdc_contract_v1, v3_and_above, no_auth,
}

-- A request, as far as the handler reads or sets it: whether it is a GET or a DELETE, the query of
-- its URL, its body, and the headers.
pub record Request : Type 0 where
  pub is_read : Bool
  pub query : Option Text
  pub body : Option Text
  pub content_type : Option Text
  pub sign_type : Option Text
  pub sign : Option Text
  pub api_key : Option Text
  pub timestamp : Option Text
  pub recv_window : Option Text

-- A body in the encoding of forms, in JSON, and in JSON by way of a JSON value; each may fail.
pub record Encoded : Type 0 where
  pub form : Result Text Text
  pub json : Result Text Text
  pub json_value : Result Text Text

pub record Libraries : Type 0 where
  pub to_text : ℕ → Text
  -- The hexadecimal HMAC-SHA256 of a message under a secret.
  pub hmac : Text → Text → Text
  pub is_header_value : Text → Bool
  pub query_pairs : Text → List (Text × Text)
  pub set_query : Text → Text
  pub append_pair : Text → Text → Text → Text
  pub json_of_form : Text → Text

abbrev pub ampersand : ℕ
ampersand = 38

abbrev pub equals : ℕ
equals = 61

-- `split_once('=')` with an empty rest if there is none.
abbrev pub split_pair : Text → Text × Text
split_pair [] = ([], [])
split_pair (c ∷ s) = let (k, v) = split_pair s in if c == equals then ([], s) else (c ∷ k, v)

abbrev pub segment : Text × Text → Text
segment (key, value) = if is_empty value then key else key ++ equals ∷ value

abbrev pub push_all : List (Text × Text) → Text
push_all [] = []
push_all (pair ∷ pairs) = segment pair ++ ampersand ∷ push_all pairs

-- `String::pop`
abbrev pub pop : Text → Text
pop [] = []
pop (c ∷ []) = []
pop (c ∷ d ∷ s) = c ∷ pop (d ∷ s)

abbrev pub millis : ℕ → ℕ
millis window = (window / 1_000_000) % u64_mod

module _ (lib : Libraries) where
  open lib use {to_text, hmac, is_header_value, query_pairs, set_query, append_pair, json_of_form}

  -- The pairs of `sort_and_add`, and the text it makes of them.
  abbrev pub signed_pairs : List (Text × Text) → Text → ℕ → List (Text × Text)
  signed_pairs pairs key timestamp =
      sort (pairs ++ (codes "api_key", key) ∷ (codes "timestamp", to_text timestamp) ∷ [])

  unfoldable pub sort_and_add : List (Text × Text) → Text → ℕ → Text
  sort_and_add pairs key timestamp = pop (push_all (signed_pairs pairs key timestamp))

  abbrev pub window_name : Bool → Text
  window_name spot = if spot then codes "recvWindow" else codes "recv_window"

  -- The pairs of the query with the window, if there is one.
  abbrev pub windowed : Bool → Option ℕ → List (Text × Text) → List (Text × Text)
  windowed spot none pairs = pairs
  windowed spot (some w) pairs = pairs ++ (window_name spot, to_text (millis w)) ∷ []

  -- The same for a body that is already encoded.
  abbrev pub windowed_body : Bool → Option ℕ → Text → Text
  windowed_body spot none body = body
  windowed_body spot (some w) body =
      (if is_empty body then [] else body ++ ampersand ∷ [])
      ++ window_name spot
      ++ equals ∷ to_text (millis w)

  abbrev form_type : Text
  form_type = codes "application/x-www-form-urlencoded"

  abbrev pub json_type : Text
  json_type = codes "application/json"

  abbrev pub body_type : Bool → Text
  body_type spot = if spot then form_type else json_type

  abbrev pub encoded_body : Bool → Encoded → Result BuildError Text
  encoded_body true body = elim body.form [ ok t ↦ ok t | err e ↦ err (Errors.url_serialization e) ]
  encoded_body false body = elim body.json [
    | ok t ↦ ok t
    | err e ↦ err (Errors.json_serialization e)
  ]

  abbrev pub form_body : Option Encoded → Result BuildError Text
  form_body none = ok []
  form_body (some body) = encoded_body true body

  abbrev query_text : Option Text → Text
  query_text none = []
  query_text (some q) = q

  -- `v1_auth`, on a request built by the caller.
  unfoldable pub v1_auth :
      Option Encoded → Text → Text → ℕ → Bool → Option ℕ → Request → Result BuildError Request
  unfolding sort_and_add
  v1_auth body key secret timestamp spot window request =
      if request.is_read
      then (let query =
            sort_and_add (windowed spot window (query_pairs (query_text request.query))) key
              timestamp in
          let signed = record request {
            query = some (append_pair (set_query query) (codes "sign") (hmac secret query));
          } in
          elim body [
            | none ↦ ok signed
            | some b ↦ elim (encoded_body spot b) [
              | err e ↦ err e
              | ok t ↦ ok (record signed { body = some t; content_type = some (body_type spot) })
            ]
          ])
      else elim (form_body body) [
        | err e ↦ err e
        | ok t ↦
            (let text =
                sort_and_add (map split_pair (split ampersand (windowed_body spot window t))) key
                  timestamp in
              let sent = text ++ codes "&sign=" ++ hmac secret text in
              ok (record request {
                body = some (if spot then sent else json_of_form sent);
                content_type = some (body_type spot);
              }))
      ]

  abbrev pub window_text : Option ℕ → Text
  window_text none = []
  window_text (some w) = to_text (millis w)

  -- What `v3_auth` signs of a request with a body, and the request that carries it.
  abbrev pub payload : Request → Text
  payload request =
      if request.is_read
      then query_text request.query
      else elim request.body [ none ↦ codes "{}" | some b ↦ b ]

  abbrev pub sign_contents : ℕ → Text → Option ℕ → Text → Text
  sign_contents timestamp key window payload =
      to_text timestamp ++ key ++ window_text window ++ payload

  abbrev with_body : Option Text → Request → Request
  with_body none request =
      if request.is_read
      then request
      else record request { body = some (codes "{}"); content_type = some json_type }
  with_body (some json) request = record request { body = some json; content_type = some json_type }

  abbrev json_body : Option Encoded → Result BuildError (Option Text)
  json_body none = ok none
  json_body (some body) = elim body.json_value [
    | ok t ↦ ok (some t)
    | err e ↦ err (Errors.json_serialization e)
  ]

  -- `v3_auth`; `version_header` asks for the type of the signature.
  unfoldable pub v3_auth :
      Option Encoded → Text → Text → ℕ → Bool → Option ℕ → Request → Result BuildError Request
  v3_auth body key secret timestamp version_header window request = elim (json_body body) [
    | err e ↦ err e
    | ok json ↦
        (let sent = with_body json request in
          if is_header_value key
          then ok (record sent {
            sign_type = if version_header then some (codes "2") else sent.sign_type;
            sign = some (hmac secret (sign_contents timestamp key window (payload sent)));
            api_key = some key;
            timestamp = some (to_text (timestamp % u64_mod));
            recv_window = elim window [
              | none ↦ sent.recv_window
              | some w ↦ some (to_text (millis w))
            ];
          })
          else err (BuildError.auth (ConstructAuthError.invalid_character_in_api_key key)))
  ]

  module _ {WsConfig : Type 0} (options : BybitOptions WsConfig) where
    -- `build_request` on what the client's builder gives.
    unfoldable pub build_request : ℕ → Option Encoded → Request → Result BuildError Request
    unfolding v1_auth v3_auth
    build_request timestamp body request = elim options.http_auth [
      | no_auth ↦ elim body [
        | none ↦ ok request
        | some b ↦ elim (encoded_body false b) [
          | err e ↦ err e
          | ok t ↦ ok (record request { body = some t; content_type = some json_type })
        ]
      ]
      | spot_v1 ↦ keyed (λ k s. v1_auth body k s timestamp true options.recv_window request)
      | below_v3 ↦ keyed (λ k s. v1_auth body k s timestamp false options.recv_window request)
      | usdc_contract_v1 ↦
          keyed (λ k s. v3_auth body k s timestamp true options.recv_window request)
      | v3_and_above ↦ keyed (λ k s. v3_auth body k s timestamp false options.recv_window request)
    ]
      where
        keyed : (Text → Text → Result BuildError Request) → Result BuildError Request
        keyed sign = elim options.pubkey [
          | none ↦ err (BuildError.auth ConstructAuthError.missing_pubkey)
          | some k ↦ elim options.secret [
            | none ↦ err (BuildError.auth ConstructAuthError.missing_secret)
            | some s ↦ sign k s
          ]
        ]
