-- ===== src/Tests/Exchanges.antt =====
-- The theorems on Binance's requests, and on request ranges.
use v_exchanges.Prelude.{
  ◌≢◌, length, ℕ, ◌-◌, ◌/◌, ◌%◌, ◌≡◌, refl, false, Option, none, some, List, [], ◌∷◌, ◌++◌, ok, err,
  Text, codes, nat_eq, text_beq, if◌then◌else◌, map, arith,
}
use v_exchanges.Adapters.Binance.Response.{Decoder}
use v_exchanges.Adapters.Binance.Urls
use v_exchanges.Adapters.Binance.Urls.{
  BinanceHttpUrl, unmodified, ws_unmodified, http_mainnet, http_endpoint,
}
use v_exchanges.Adapters.Binance.Options.{
  BinanceOptions, sign, Request, Signing, dated, signed, build_request,
}
use v_exchanges.Adapters.Binance.Options.Signatures.{all_params, build_request-signed}
use v_exchanges.Methods.Ranges.{span, ensure_allowed}
use v_exchanges.Methods.Ranges.Limits.{IsSpanOfSeconds, span_unlimited}

abbrev decoder : Decoder ℕ ℕ
decoder = record {
  from_json = λ body. ok body;
  error_from_json = λ _. err (codes "no error object");
  msg_field = λ _. none;
  from_utf8 = λ _. none;
  from_utf8_lossy = λ _. codes "?";
}

abbrev teapot : ℕ
teapot = 418

-- A parser that tells the text "60" from all others.
abbrev parse_u32 : Text → Option ℕ
parse_u32 t = if text_beq t (codes "60") then some 60 else none

-- What the time library answers to the difference of two timestamps.
abbrev get_milliseconds : ℕ → ℕ → ℕ
get_milliseconds start end = ((end - start) / 1_000_000) % 1_000

get_milliseconds-IsSpanOfSeconds : IsSpanOfSeconds get_milliseconds
get_milliseconds-IsSpanOfSeconds start end h = refl

span_unlimited_example :
    ensure_allowed get_milliseconds 1 1_000 60_000 (span 0 (some 604_800_000_000_000))
    ≡ some (ok tt)
span_unlimited_example =
    span_unlimited get_milliseconds 1 1_000 60_000 0 604_800_000_000_000
      get_milliseconds-IsSpanOfSeconds (ground arith) (ground arith)

-- A parser that takes every text but the empty one for a URL.
abbrev parse : Text → Option Text
parse [] = none
parse (c ∷ t) = some (c ∷ t)

parsed :
    (url : BinanceHttpUrl) → url ≢ unmodified → (u : Text) × (parse (http_mainnet url) ≡ some u)
parsed Urls.spot d = (http_mainnet Urls.spot, refl)
parsed Urls.spot1 d = (http_mainnet Urls.spot1, refl)
parsed Urls.spot2 d = (http_mainnet Urls.spot2, refl)
parsed Urls.spot3 d = (http_mainnet Urls.spot3, refl)
parsed Urls.spot4 d = (http_mainnet Urls.spot4, refl)
parsed Urls.spot_data d = (http_mainnet Urls.spot_data, refl)
parsed Urls.futures_usd_m d = (http_mainnet Urls.futures_usd_m, refl)
parsed Urls.futures_coin_m d = (http_mainnet Urls.futures_coin_m, refl)
parsed Urls.european_options d = (http_mainnet Urls.european_options, refl)
parsed unmodified d = absurd (d refl)

abbrev signing : Signing
signing = record {
  to_text = λ n. n ∷ [];
  query_string = λ pairs. map (λ (name, value). length (name ++ value)) pairs;
  hmac = λ secret message. secret ++ message;
}

abbrev options : BinanceOptions ℕ
options = record {
  pubkey = some (codes "key");
  secret = some (codes "secret");
  recv_window = some 5_000_000_000;
  http_url = unmodified;
  http_auth = sign;
  ws_url = ws_unmodified;
  ws_config = 0;
  ws_topics = [];
  test = false;
  book_snapshot_freq = none;
}

abbrev order : List (Text × Text)
order = (codes "symbol", codes "BTCUSDT") ∷ []

abbrev request : Request
request = record {
  api_key = some (codes "key");
  query = signed signing options (codes "secret") (dated signing options 77 order) [];
  body = [];
}

request-built : build_request signing options 77 order none ≡ ok request
unfolding build_request
request-built = refl

build_request-signed_example :
    (secret : Text) × (options.secret ≡ some secret)
    × (request.api_key ≡ options.pubkey)
    × (let params = all_params signing options 77 order in
        request.query
        ≡ params
          ++ (codes "signature", signing.hmac secret (signing.query_string params ++ request.body))
            ∷ [])
build_request-signed_example =
    build_request-signed signing options 77 order none request refl request-built
