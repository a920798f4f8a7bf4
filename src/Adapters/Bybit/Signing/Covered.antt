-- ===== src/Adapters/Bybit/Signing/Covered.antt =====
-- What the requests of the newer versions of the API carry and sign.
use v_exchanges.Prelude.{
  ℕ, Bool, true, false, ◌%◌, ◌≡◌, ◌⊎◌, inl, inr, Option, some, ok, Text, u64_mod, arith, [], ◌++◌,
  none, ◌/◌, ◌^◌, if◌then◌else◌, Option-cases,
}
use v_exchanges.Adapters.Bybit.Options.{BybitOptions, usdc_contract_v1, v3_and_above}
use v_exchanges.Adapters.Bybit.Signing.{Request, Encoded, Libraries, v3_auth, build_request}

module _ (lib : Libraries) where
  open lib use {to_text, hmac}

  -- A window in whole milliseconds, if there is one.
  abbrev pub window_in_ms : Option ℕ → Text
  window_in_ms none = []
  window_in_ms (some window) = to_text ((window / 1_000_000) % 2 ^ 64)

  abbrev pub text_or_empty : Option Text → Text
  text_or_empty none = []
  text_or_empty (some t) = t

  -- What is sent: the query of a GET or DELETE, and the body of any other request.
  abbrev pub sent_text : Request → Text
  sent_text r = if r.is_read then text_or_empty r.query else text_or_empty r.body

  -- A request carries the key, the time, and a signature of these, the window, and what it sends.
  abbrev pub IsSigned : ℕ → Text → Text → Option ℕ → Request → Type 0
  IsSigned timestamp key secret window r =
      (r.api_key ≡ some key)
      × (r.timestamp ≡ some (to_text (timestamp % u64_mod)))
      × (r.sign
          ≡ some (hmac secret (to_text timestamp ++ key ++ window_in_ms window ++ sent_text r)))

  v3_auth-IsSigned :
      (body : Option Encoded) (key secret : Text) (timestamp : ℕ) (version : Bool)
      (window : Option ℕ) (request r : Request)
      → v3_auth lib body key secret timestamp version window request ≡ ok r
      → IsSigned timestamp key secret window r
  unfolding v3_auth
  v3_auth-IsSigned body key secret timestamp version window request r h = ground arith

  -- A request that is built for USDC contracts or for version 3 and above needs the key and the
  -- secret of the options, and is signed with them: over the time, the key and the window, and over
  -- what is then sent, which is the query of a GET or DELETE and the body of any other request.
  pub build_request-IsSigned :
      {WsConfig : Type 0} (options : BybitOptions WsConfig) (timestamp : ℕ) (body : Option Encoded)
      (request r : Request)
      → (options.http_auth ≡ usdc_contract_v1) ⊎ (options.http_auth ≡ v3_and_above)
      → build_request lib options timestamp body request ≡ ok r
      → (key : Text) × (secret : Text) × (options.pubkey ≡ some key)
        × (options.secret ≡ some secret)
        × IsSigned timestamp key secret options.recv_window r
  unfolding build_request
  build_request-IsSigned options timestamp body request r auth h =
      elim (Option-cases options.pubkey) [
        | inl e ↦ ground arith
        | inr (key, e) ↦ elim (Option-cases options.secret) [
          | inl f ↦ ground arith
          | inr (secret, f) ↦ (
            key,
            secret,
            e,
            f,
            elim auth [
              | inl a ↦
                  v3_auth-IsSigned body key secret timestamp true options.recv_window request r
                    (ground arith)
              | inr a ↦
                  v3_auth-IsSigned body key secret timestamp false options.recv_window request r
                    (ground arith)
            ],
          )
        ]
      ]
