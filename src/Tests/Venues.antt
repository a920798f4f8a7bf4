-- ===== src/Tests/Venues.antt =====
-- The theorems on the adapters of KuCoin and MEXC, and on the client of all exchanges.
use v_exchanges.Prelude.{
  ℕ, pos, ◌+◌, ◌≤◌, ◌≡◌, ◌⊎◌, refl, Bool, true, false, none, some, List, [], ◌∷◌, ◌++◌, ok, Text,
  codes, map, ◌==◌,
}
use v_exchanges.Http.Client.{settle}
use v_exchanges.Ws.Messages.{Frame, text, close}
use v_exchanges.Ws.Batch
use v_exchanges.Ws.Batch.{Drain, drain}
use v_exchanges.Ws.Batch.Feed.{before_end, has_end, values}
use v_exchanges.Adapters.Kucoin.Options as KucoinOptions
use v_exchanges.Adapters.Kucoin.Response
use v_exchanges.Adapters.Kucoin.Response.Bans.{request_handler, settle-keeps}
use v_exchanges.Adapters.Kucoin.Options.{is_authenticated}
use v_exchanges.Adapters.Kucoin.Signing
use v_exchanges.Adapters.Kucoin.Signing.{prehash}
use v_exchanges.Adapters.Kucoin.Signing.Covered.{
  sent_body, sent_target, build_request-authenticated,
}
use v_exchanges.Adapters.Kucoin.Stream
use v_exchanges.Adapters.Kucoin.Stream.{protocol, StreamOptions, event_of}
use v_exchanges.Adapters.Kucoin.Stream.Unsubscribed.{surfaced, drain-surfaced}
use v_exchanges.Adapters.Mexc.Options as MexcOptions
use v_exchanges.Adapters.Mexc.Options.{
  MexcOption, set_recv_window, set_pubkey, set_http_auth, default, handler_options,
}
use v_exchanges.Adapters.Mexc.Response as Mexc
use v_exchanges.Adapters.Mexc.Signing as MexcSigning
use v_exchanges.Adapters.Mexc.Signing.Windows.{recv_window-bounded}
use v_exchanges.Adapters.Client.{GetOptions, merged_from}
use v_exchanges.Adapters.Client.Merging.{IsLens}
use v_exchanges.Tests.Calls.{wire, key, world, client, banning}
use v_exchanges.Tests.Retries.Decimal.{decimal}

abbrev kucoin : Response.Decoder ℕ ℕ ℕ
kucoin = record {
  from_slice = λ body. ok body;
  code = λ _. some (codes "429000");
  msg = λ _. none;
  from_value = λ value. ok value;
  error_from_slice = λ body. ok (codes "429000", codes "too many requests");
  from_utf8 = λ _. none;
}

settle-keeps_example :
    (settle wire decimal
      (request_handler wire decimal kucoin (λ _. ok (codes "")) (λ n. ok n))
      world
      key
      1
      banning
      client).client
    ≡ client
settle-keeps_example =
    settle-keeps wire decimal kucoin (λ _. ok (codes "")) (λ n. ok n) world key 1 banning client

abbrev libraries : Signing.Libraries
libraries = record {
  to_text = λ n. (48 + n) ∷ [];
  hmac = λ secret message. secret ++ message;
  header_error = λ _. none;
}

abbrev options : StreamOptions Text ℕ
options = record {
  pubkey = some (codes "k");
  secret = some (codes "s");
  passphrase = some (codes "p");
  http_url = KucoinOptions.spot;
  http_auth = KucoinOptions.sign;
  ws_url = KucoinOptions.ws_spot;
  ws_config = record { url = none; topics = []; rest = 0 };
  ws_topics = codes "/market/ticker:BTC-USDT" ∷ [];
  test = false;
}

abbrev bare : Signing.Request
bare = record {
  method = codes "GET";
  path = codes "/a";
  query = some (codes "b=c");
  body = none;
  content_type = none;
  kc_api_key = none;
  kc_api_sign = none;
  kc_api_timestamp = none;
  kc_api_passphrase = none;
  kc_api_key_version = none;
}

abbrev built : Signing.Request
built = record bare {
  content_type = some (codes "application/json");
  kc_api_key = some (codes "k");
  kc_api_sign = some (codes "s7GET/a?b=c");
  kc_api_timestamp = some (codes "7");
  kc_api_passphrase = some (codes "sp");
  kc_api_key_version = some (codes "2");
}

built_request : Signing.build_request libraries options 7 none bare ≡ ok built
unfolding Signing.build_request
built_request = refl

build_request-authenticated_example :
    (is_authenticated options ≡ true)
    × (built.kc_api_key ≡ options.pubkey)
    × (built.kc_api_timestamp ≡ some (libraries.to_text 7))
    × ((secret : Text) × (passphrase : Text) × (options.secret ≡ some secret)
        × (options.passphrase ≡ some passphrase)
        × (built.kc_api_passphrase ≡ some (libraries.hmac secret passphrase))
        × (built.kc_api_sign
            ≡ some (
                libraries.hmac secret
                  (libraries.to_text 7 ++ built.method ++ sent_target built ++ sent_body built))))
build_request-authenticated_example =
    build_request-authenticated libraries options 7 none bare built refl refl built_request

-- Values are numbers without a field of any name.
abbrev stream : Stream.Libraries ℕ
stream = record {
  type_field = λ _. none;
  topic_field = λ _. none;
  data_field = λ v. some v;
  time_field = λ _. none;
  null = 0;
  from_millisecond = λ t. some t;
  now = λ _. pos 0;
  is_pong = λ v. v == 9;
}

abbrev asks_auth : ℕ → Bool
asks_auth _ = false

abbrev frames : List (Frame ℕ)
frames = text (some 3) ∷ text (some 9) ∷ text (some 4) ∷ close ∷ []

abbrev start : Drain (protocol stream Text ℕ asks_auth)
start = record { handler = options; outbox = []; content = [] }

drain-surfaced_example :
    (◌≡◌ {A = List Stream.Message} [] [])
    × (drain (protocol stream Text ℕ asks_auth) frames start
        ≡ Batch.ended (has_end (protocol stream Text ℕ asks_auth) frames) (
            surfaced stream Text ℕ asks_auth
              (map (event_of stream) (
                values
                  (protocol stream Text ℕ asks_auth)
                  (before_end (protocol stream Text ℕ asks_auth) frames)))
              start))
unfolding Stream.handle_auth
drain-surfaced_example = drain-surfaced stream Text ℕ asks_auth frames start options [] refl refl

abbrev mexc : Mexc.Decoder ℕ ℕ
mexc = record {
  envelope = λ _. none;
  from_slice = λ body. ok body;
  error_from_slice = λ body. ok (pos body, codes "m");
  from_utf8 = λ _. none;
  print = λ _. codes "n";
  parse_u32 = λ _. some 60;
}

abbrev items : List (MexcOption ℕ)
items = set_recv_window 90_000_000_000 ∷ set_pubkey (codes "k") ∷ set_http_auth MexcOptions.key ∷ []

abbrev mexc_libraries : MexcSigning.Libraries
mexc_libraries = record {
  to_text = λ n. n ∷ [];
  hmac = λ secret message. secret ++ message;
  is_header_value = λ _. true;
}

abbrev mexc_bare : MexcSigning.Request
mexc_bare = record {
  is_read = true;
  query = none;
  body = none;
  content_type = none;
  api_key = none;
  request_time = none;
  recv_window = none;
  signature = none;
}

abbrev mexc_built : MexcSigning.Request
mexc_built = record mexc_bare {
  api_key = some (codes "k");
  request_time = some (7 ∷ []);
  recv_window = some (60_000 ∷ []);
}

mexc_built_request :
    MexcSigning.build_request mexc_libraries
      (merged_from handler_options (default 0) items)
      7
      none
      mexc_bare
    ≡ some (ok mexc_built)
unfolding MexcSigning.build_request MexcOptions.update
mexc_built_request = refl

recv_window-bounded_example :
    (mexc_built.recv_window ≡ none)
    ⊎ ((n : ℕ) × (n ≤ 60_000) × (mexc_built.recv_window ≡ some (mexc_libraries.to_text n)))
recv_window-bounded_example =
    recv_window-bounded mexc_libraries 0 items 7 none mexc_bare mexc_built refl mexc_built_request

-- A client that keeps nothing but the options of MEXC.
abbrev alone : GetOptions (MexcOptions.MexcOptions ℕ) (MexcOptions.MexcOptions ℕ)
alone = record { default_options = λ c. c; set_default_options = λ o _. o }

alone-IsLens : IsLens alone
alone-IsLens o c = refl
