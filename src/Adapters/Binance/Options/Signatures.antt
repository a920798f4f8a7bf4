-- ===== src/Adapters/Binance/Options/Signatures.antt =====
-- What a signed request carries, and when a request cannot be built.
use v_exchanges.Prelude.{
  ℕ, ◌≡◌, Option, none, some, List, Result, ok, err, Text, arith, refl, sym, Option-cases, inl, inr,
  [], ◌∷◌, ◌++◌, codes, ◌/◌, ◌%◌, ◌^◌,
}
use mathlib.Core.List.{append-nil}
use v_exchanges.Adapters.Binance.Options.{
  BinanceOptions, sign, Request, Signing, dated, build_request,
}

module _ {WsConfig : Type 0} (lib : Signing) (options : BinanceOptions WsConfig) where
  -- The window of the options in whole milliseconds, as a parameter.
  abbrev pub window_pair : List (Text × Text)
  window_pair = elim options.recv_window [
    | none ↦ []
    | some window ↦ (codes "recvWindow", lib.to_text ((window / 1_000_000) % 2 ^ 64)) ∷ []
  ]

  -- The parameters of the caller with the time and the window.
  abbrev pub all_params : ℕ → List (Text × Text) → List (Text × Text)
  all_params timestamp query =
      query ++ (codes "timestamp", lib.to_text timestamp) ∷ [] ++ window_pair

  dated-all_params :
      (timestamp : ℕ) (query : List (Text × Text))
      → dated lib options timestamp query ≡ all_params timestamp query
  dated-all_params timestamp query = elim (Option-cases options.recv_window) [
    | inl w ↦ rw w (sym (append-nil (query ++ (codes "timestamp", lib.to_text timestamp) ∷ [])))
    | inr (window, w) ↦ rw w refl
  ]

  -- A request that was built for signed access carries the key, and ends in a signature, under the
  -- secret of the options, of its body behind all its other parameters, which are those of the
  -- caller, the time, and the window of the options.
  pub build_request-signed :
      (timestamp : ℕ) (query : List (Text × Text)) (body : Option (Result Text Text)) (r : Request)
      → options.http_auth ≡ sign
      → build_request lib options timestamp query body ≡ ok r
      → (secret : Text) × (options.secret ≡ some secret)
        × (r.api_key ≡ options.pubkey)
        × (let params = all_params timestamp query in
            r.query
            ≡ params
              ++ (codes "signature", lib.hmac secret (lib.query_string params ++ r.body)) ∷ [])
  unfolding build_request
  build_request-signed timestamp query (some (err x)) r a h = absurd (ground arith)
  build_request-signed timestamp query none r a h = elim (Option-cases options.secret) [
    | inl f ↦ absurd (ground arith)
    | inr (s, f) ↦ rw (sym (dated-all_params timestamp query)) (s, f, ground arith, ground arith)
  ]
  build_request-signed timestamp query (some (ok text)) r a h = elim (Option-cases options.secret) [
    | inl f ↦ absurd (ground arith)
    | inr (s, f) ↦ rw (sym (dated-all_params timestamp query)) (s, f, ground arith, ground arith)
  ]
