-- ===== src/Adapters/Binance/Urls/Networks.antt =====
-- Which base URLs the REST handler answers with.
use v_exchanges.Prelude.{
  ◌≡◌, ◌≢◌, ◌⊎◌, inl, inr, refl, false, Option, none, some, ok, Text, [], arith,
}
use v_exchanges.Adapters.Binance.Urls.{BinanceHttpUrl, unmodified, http_mainnet, http_endpoint}
use v_exchanges.Adapters.Traits.{base_url}

unmodified_or : (url : BinanceHttpUrl) → (url ≡ unmodified) ⊎ (url ≢ unmodified)
unmodified_or url = ground arith

module _ {Url : Type 0} (parse : Text → Option Url)
    (absolute : (url : BinanceHttpUrl)
      → url ≢ unmodified
      → (u : Url) × (parse (http_mainnet url) ≡ some u))
    (relative : parse [] ≡ none) where
  -- On the main network the handler has a base URL for each endpoint but the unmodified one, where
  -- the call panics, if every listed URL parses and the empty text does not.
  pub base_url_mainnet :
      (url : BinanceHttpUrl)
      → ((url ≡ unmodified) × (base_url parse url false ≡ none))
        ⊎ ((u : Url) × (parse (http_mainnet url) ≡ some u)
            × (base_url parse url false ≡ some (ok u)))
  unfolding base_url
  base_url_mainnet url = elim (unmodified_or url) [
    | inl e ↦ inl (e, rw e (rw relative refl))
    | inr n ↦ (let (u, p) = absolute url n in inr (u, p, rw p refl))
  ]
