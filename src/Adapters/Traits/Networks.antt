-- ===== src/Adapters/Traits/Networks.antt =====
-- Which base URLs the handlers answer with.
use v_exchanges.Prelude.{
  ◌≡◌, ◌⊎◌, inl, inr, refl, true, false, Option, none, some, ok, err, Text, Option-cases,
}
use v_exchanges.Http.Errors
use v_exchanges.Adapters.Traits.{EndpointUrl, base_url}

module _ {Url E : Type 0} ⦃endpoint : EndpointUrl E⦄ (parse : Text → Option Url) where
  open endpoint use {url_mainnet, url_testnet}

  -- An endpoint whose URLs are read by the URL library has a base URL on the main network; on the
  -- test network it has its own, or the call fails with the one of the main network.
  pub base_url_networks :
      (url : E) (u : Url)
      → parse (url_mainnet url) ≡ some u
      → ((t : Text) → url_testnet url ≡ some t → (v : Url) × (parse t ≡ some v))
      → (base_url parse url false ≡ some (ok u))
        × (((t : Text) × (v : Url) × (url_testnet url ≡ some t)
              × (parse t ≡ some v)
              × (base_url parse url true ≡ some (ok v)))
            ⊎ ((url_testnet url ≡ none)
                × (base_url parse url true
                    ≡ some (err (Errors.missing_testnet (url_mainnet url))))))
  unfolding base_url
  base_url_networks url u main test = (
    rw main refl,
    elim (Option-cases (url_testnet url)) [
      | inl e ↦ inr (e, rw (e, base_url) (rw main refl))
      | inr (t, e) ↦ (let (v, p) = test t e in inl (t, v, e, p, rw (e, base_url) (rw p refl)))
    ],
  )
