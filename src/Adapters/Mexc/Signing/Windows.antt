-- ===== src/Adapters/Mexc/Signing/Windows.antt =====
-- What a signed request of MEXC carries, and the window it asks for.
use v_exchanges.Prelude.{
  ℕ, List, ◌++◌, ◌≤◌, ◌≡◌, ◌⊎◌, inl, inr, Option, none, some, Result, ok, Text, arith, Option-cases,
}
use v_exchanges.Adapters.Client.{merged_from}
use v_exchanges.Adapters.Client.Merging.{merged_from-keeps}
use v_exchanges.Adapters.Mexc.Options.{MexcOptions, MexcOption, default, sign, handler_options}
use v_exchanges.Adapters.Mexc.Options.Capped.{IsCapped, update-IsCapped}
use v_exchanges.Adapters.Mexc.Signing.{Request, Libraries, text_of, build_request, window_ms}

module _ (lib : Libraries) {WsConfig : Type 0} where
  open lib use {to_text, hmac}

  recv_window-IsCapped :
      (options : MexcOptions WsConfig) (timestamp : ℕ) (body : Option (Result Text Text))
      (request r : Request)
      → IsCapped options
      → request.recv_window ≡ none
      → build_request lib options timestamp body request ≡ some (ok r)
      → (r.recv_window ≡ none) ⊎ ((n : ℕ) × (n ≤ 60_000) × (r.recv_window ≡ some (to_text n)))
  unfolding build_request
  recv_window-IsCapped options timestamp body request r capped fresh h =
      elim (Option-cases options.recv_window) [
        | inl e ↦ ground arith
        | inr (window, e) ↦
            (let kept : (r.recv_window ≡ none)
                  ⊎ (r.recv_window ≡ some (to_text (window_ms lib options window))) =
                ground arith in
              elim kept [
                | inl k ↦ inl k
                | inr k ↦ inr (window_ms lib options window, ground (arith, capped window e), k)
              ])
      ]

  -- Whatever options are set on the default ones, of a client or for a call, a request never asks
  -- for a window of more than 60000 milliseconds.
  pub recv_window-bounded :
      (ws_config : WsConfig) (items : List (MexcOption WsConfig)) (timestamp : ℕ)
      (body : Option (Result Text Text)) (request r : Request)
      → request.recv_window ≡ none
      → build_request lib
          (merged_from handler_options (default ws_config) items)
          timestamp
          body
          request
        ≡ some (ok r)
      → (r.recv_window ≡ none) ⊎ ((n : ℕ) × (n ≤ 60_000) × (r.recv_window ≡ some (to_text n)))
  recv_window-bounded ws_config items timestamp body request r =
      recv_window-IsCapped (merged_from handler_options (default ws_config) items) timestamp body
        request r
        (merged_from-keeps handler_options IsCapped (default ws_config) items update-IsCapped
          (λ window e. cc))

  -- A request that was built for signed access, from one without a body, carries the key, the time,
  -- and a signature under the secret of the key, the time and the body it carries; the query of its
  -- URL is kept, and is no part of what is signed.
  pub build_request-signed :
      (options : MexcOptions WsConfig) (timestamp : ℕ) (body : Option (Result Text Text))
      (request r : Request)
      → options.http_auth ≡ sign
      → request.body ≡ none
      → build_request lib options timestamp body request ≡ some (ok r)
      → (r.query ≡ request.query)
        × (r.request_time ≡ some (to_text timestamp))
        × ((key : Text) × (secret : Text) × (options.pubkey ≡ some key)
            × (options.secret ≡ some secret)
            × (r.api_key ≡ some key)
            × (r.signature ≡ some (hmac secret (key ++ to_text timestamp ++ text_of r.body))))
  unfolding build_request
  build_request-signed options timestamp body request r auth fresh h =
      elim (Option-cases options.pubkey) [
        | inl e ↦ ground arith
        | inr (k, e) ↦ elim (Option-cases options.secret) [
          | inl f ↦ ground arith
          | inr (s, f) ↦ (ground arith, ground arith, (k, s, e, f, ground arith, ground arith))
        ]
      ]
