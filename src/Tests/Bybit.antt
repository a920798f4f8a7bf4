-- ===== src/Tests/Bybit.antt =====
-- The theorems on Bybit's adapter.
use v_exchanges.Prelude.{
  ℕ, ◌==◌, if◌then◌else◌, pos, ◌+◌, ◌≡◌, inr, refl, true, false, none, some, List, [], ◌∷◌, ◌++◌,
  ok, Text, codes, map, split, IsSorted, pair_ord, arith,
}
use mathlib.Core.List.{Perm}
use mathlib.Core.List.Perm
use v_exchanges.Http.Config
use v_exchanges.Http.Parts.{Response, finished}
use v_exchanges.Http.Client.{settle, gate, reply, still_banned}
use v_exchanges.Adapters.Traits.{StreamConfig}
use v_exchanges.Adapters.Bybit.Options.{BybitOptions, bybit, ws_bybit, v3_and_above}
use v_exchanges.Adapters.Bybit.Response.{Decoder}
use v_exchanges.Adapters.Bybit.Response.Bans.{request_handler, ban_code-gates}
use v_exchanges.Adapters.Bybit.Signing
use v_exchanges.Adapters.Bybit.Signing.{
  Request, Encoded, ampersand, split_pair, sort_and_add, build_request,
}
use v_exchanges.Adapters.Bybit.Signing.Sorted.{AreClean, all_pairs, sort_and_add-reads}
use v_exchanges.Adapters.Bybit.Signing.Covered.{IsSigned, build_request-IsSigned}
use v_exchanges.Adapters.Bybit.Stream
use v_exchanges.Adapters.Bybit.Stream.{
  Message, subscribe, BybitResponse, feedback, op_auth, op_subscribe, handle_auth, handle_jrpc,
}
use v_exchanges.Adapters.Bybit.Stream.Sessions.{
  asked, topics_of, Session, opened, answered, Session-subscribes,
}
use v_exchanges.Tests.Calls.{wire, key, world, client}
use v_exchanges.Tests.Calls as Calls
use v_exchanges.Tests.Retries.Decimal.{decimal}

-- Bodies are JSON numbers, which are also their "retCode".
abbrev decoder : Decoder ℕ ℕ ℕ
decoder = record {
  from_slice = λ body. ok body;
  ret_code = λ value. some (pos value);
  ret_msg = λ _. none;
  from_value = λ value. ok value;
  error_from_slice = λ body. ok (pos body, codes "m");
  from_utf8 = λ _. none;
  print = λ _. codes "n";
}

abbrev over_limit : Response wire
over_limit = record { status = 200; headers = tt; body = ok 10_018 }

ban_code-gates_example :
    gate wire decimal Calls.handler world key
      (settle wire decimal
        (request_handler wire decimal decoder (λ _. ok (codes "")) (λ n. ok n) none)
        world
        key
        1
        over_limit
        client).client
    ≡ finished (
        reply wire decimal Calls.handler world
          (still_banned wire decimal Calls.handler world 300_000_000_500)
          (settle wire decimal
            (request_handler wire decimal decoder (λ _. ok (codes "")) (λ n. ok n) none)
            world
            key
            1
            over_limit
            client).client
          0)
unfolding Config.default
ban_code-gates_example =
    ban_code-gates wire decimal decoder (λ _. ok (codes "")) (λ n. ok n) none world key 1 over_limit
      client 10_018 10_018 10_018 Calls.handler world refl refl refl (ground arith) (ground arith)
      refl refl (inr (inr refl)) (ground arith)

abbrev libraries : Signing.Libraries
libraries = record {
  to_text = λ n. (48 + n) ∷ [];
  hmac = λ secret message. secret ++ message;
  is_header_value = λ _. true;
  query_pairs = λ _. [];
  set_query = λ t. t;
  append_pair = λ t name value. t ++ name ++ value;
  json_of_form = λ t. t;
}

abbrev pairs : List (Text × Text)
pairs = (codes "symbol", codes "BTC") ∷ (codes "qty", codes "1") ∷ []

pairs-AreClean : AreClean (all_pairs libraries pairs (codes "k") 7)
pairs-AreClean = ground arith

sort_and_add-reads_example :
    IsSorted (map split_pair (split ampersand (sort_and_add libraries pairs (codes "k") 7)))
    × Perm
        (map split_pair (split ampersand (sort_and_add libraries pairs (codes "k") 7)))
        (all_pairs libraries pairs (codes "k") 7)
sort_and_add-reads_example = sort_and_add-reads libraries pairs (codes "k") 7 pairs-AreClean

swapped : Perm pairs ((codes "qty", codes "1") ∷ (codes "symbol", codes "BTC") ∷ [])
swapped = Perm.swap (codes "qty", codes "1") (codes "symbol", codes "BTC") []

abbrev options : BybitOptions (StreamConfig Text ℕ)
options = record {
  pubkey = some (codes "k");
  secret = some (codes "s");
  testnet = false;
  http_url = bybit;
  http_auth = v3_and_above;
  recv_window = some 5_000_000;
  ws_url = ws_bybit;
  ws_auth = true;
  ws_config = record { url = none; topics = codes "a" ∷ []; rest = 0 };
  ws_topics = codes "b" ∷ [];
}

abbrev bare : Request
bare = record {
  is_read = false;
  query = none;
  body = none;
  content_type = none;
  sign_type = none;
  sign = none;
  api_key = none;
  timestamp = none;
  recv_window = none;
}

abbrev built : Request
built = record bare {
  body = some (codes "{}");
  content_type = some (codes "application/json");
  sign = some (codes "s7k5{}");
  api_key = some (codes "k");
  timestamp = some (codes "7");
  recv_window = some (codes "5");
}

built_request : build_request libraries options 7 none bare ≡ ok built
unfolding build_request
built_request = refl

build_request-IsSigned_example :
    (k : Text) × (secret : Text) × (options.pubkey ≡ some k)
    × (options.secret ≡ some secret)
    × IsSigned libraries 7 k secret options.recv_window built
build_request-IsSigned_example =
    build_request-IsSigned libraries options 7 none bare built (inr refl) built_request

-- The values 1 and 2 say that the key and the topics were accepted.
abbrev stream : Stream.Libraries ℕ
stream = record {
  to_text = λ n. n ∷ [];
  hmac = λ secret message. secret;
  from_value = λ v. ok (feedback true [] (if v == 1 then op_auth else op_subscribe));
  success_field = λ _. some true;
  from_millisecond = λ t. some t;
}

abbrev sent : List Message
sent = (Stream.auth (codes "k") 1_007 (codes "s") ∷ [] ++ subscribe (codes "b" ∷ []) ∷ []) ++ []

session : Session stream options (([] ++ 1 ∷ []) ++ 2 ∷ []) sent
unfolding handle_auth handle_jrpc
session = answered 2 (answered 1 (opened 7 refl) refl) refl

Session-subscribes_example : asked sent ≡ topics_of stream options (([] ++ 1 ∷ []) ++ 2 ∷ [])
Session-subscribes_example =
    Session-subscribes stream options (([] ++ 1 ∷ []) ++ 2 ∷ []) sent refl session
