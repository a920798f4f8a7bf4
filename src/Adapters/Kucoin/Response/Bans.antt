-- ===== src/Adapters/Kucoin/Response/Bans.antt =====
-- KuCoin's responses at the HTTP client: none of them is a ban.
use v_exchanges.Prelude.{
  ℕ, Bool, ◌≡◌, refl, none, Result, err, arith, Text, codes, Result-cases, inl, inr, leb, ltb, ◌==◌,
  ◌&&◌, Bool-cases, Option-cases,
}
use v_exchanges.Retry.Float.{Float}
use v_exchanges.Http.Errors.{BuildError, UrlError, HandleError}
use v_exchanges.Http.Parts.{Wire, Client, Handler, Response, World}
use v_exchanges.Http.Client.{settle, ban_of}
use v_exchanges.Adapters.Kucoin.Codes.{KucoinErrorCode, of_string}
use v_exchanges.Adapters.Kucoin.Response.{
  Decoder, api_error, or_else, failed_code, handle_value, handle_response,
}

module _ (w : Wire) (fl : Float) {Value S : Type 0} (decoder : Decoder w.Body Value S)
    (base_url : Bool → Result UrlError w.Url)
    (build_request : ℕ → Result BuildError w.Request) where
  -- `KucoinRequestHandler`, by what it builds requests with; its buckets have no name of a key.
  abbrev pub request_handler : Handler w S
  request_handler = record {
    base_url = base_url;
    build_request = build_request;
    handle_response = λ status _ body. handle_response decoder status body;
    rate_limit_key_name = none;
  }

  reported_never_bans :
      (world : World w) (code : KucoinErrorCode) (msg : Text)
      → ban_of w fl request_handler world (err (HandleError.api (api_error code msg))) ≡ none
  unfolding api_error
  reported_never_bans world code msg = ground arith

  handle_value-never_bans :
      (world : World w) (value : Value)
      → ban_of w fl request_handler world (handle_value decoder value) ≡ none
  handle_value-never_bans world value = elim (Option-cases (failed_code decoder value)) [
    | inl e ↦ elim (Result-cases (decoder.from_value value)) [
      | inl (s, f) ↦ ground arith
      | inr (x, f) ↦ ground arith
    ]
    | inr (code, e) ↦
        (let msg = or_else (decoder.msg value) (codes "Unknown error") in
          ground (arith, reported_never_bans world (of_string code) msg))
  ]

  never_bans :
      (world : World w) (status : ℕ) (body : w.Body)
      → ban_of w fl request_handler world (handle_response decoder status body) ≡ none
  unfolding handle_response
  never_bans world status body = elim (Bool-cases (leb 200 status && ltb status 300)) [
    | inl e ↦ elim (Result-cases (decoder.from_slice body)) [
      | inl (value, f) ↦ rw (e, f) (handle_value-never_bans world value)
      | inr (x, f) ↦ rw (e, f) refl
    ]
    | inr e ↦ elim (Bool-cases (status == 401)) [
      | inl f ↦ rw (e, f) refl
      | inr f ↦ elim (Result-cases (decoder.error_from_slice body)) [
        | inl ((code, msg), g) ↦ rw (e, f, g) (reported_never_bans world (of_string code) msg)
        | inr (x, g) ↦ rw (e, f, g) refl
      ]
    ]
  ]

  -- Whatever a response says, the too many requests of a status 429 included, it leaves the client
  -- as it was: no bucket is ever banned.
  pub settle-keeps :
      (world : World w) (key : Text) (sent : ℕ) (response : Response w) (c : Client fl)
      → (settle w fl request_handler world key sent response c).client ≡ c
  unfolding settle
  settle-keeps world key sent response c = elim (Result-cases response.body) [
    | inl (body, e) ↦ ground (arith, never_bans world response.status body)
    | inr (x, e) ↦ ground arith
  ]
