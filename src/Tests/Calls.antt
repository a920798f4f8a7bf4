-- ===== src/Tests/Calls.antt =====
-- The theorems on the HTTP client at one host, and one response that reports a ban.
use v_exchanges.Prelude.{
  ℕ, ◌+◌, ◌≤◌, ◌≡◌, ◌⊎◌, inr, refl, true, Option, none, some, [], Result, ok, err, if◌then◌else◌,
  ◌==◌, remove, insert, Text, text_eq, codes, arith,
}
use v_exchanges.Http.Errors.{IpError, ApiError, HandleError, RequestError}
use v_exchanges.Http.Config
use v_exchanges.Http.Bucket.{bucket}
use v_exchanges.Http.Parts.{Wire, Client, Handler, Response, World, Reply, finished}
use v_exchanges.Http.Client.{settle, send, admit, gate, request, reply, heal, still_banned}
use v_exchanges.Http.Client.Sending.{reported, BansAtMost, send-finishes}
use v_exchanges.Http.Client.Gate.{ban_end, gate-expired}
use v_exchanges.Http.Client.Banned.{Later, at_once, behind, reported_ban_gates}
use v_exchanges.Retry.Backoff.{of_config}
use v_exchanges.Tests.Retries.Decimal.{decimal}

abbrev pub site : Text
site = codes "api.binance.com"

-- All URLs are of one host, bodies are numbers.
abbrev pub wire : Wire
wire = record {
  Url = Text;
  Request = ℕ;
  Headers = Unit {0};
  Body = ℕ;
  host = λ _. some site;
  no_headers = tt;
  is_utf8 = λ _. true;
}

abbrev pub key : Text
key = codes "ip.binance"

-- 429 is a ban until 900; all else is the body.
abbrev pub answered : ℕ → ℕ → Result HandleError ℕ
answered status body =
    if status == 429
    then err (HandleError.api (ApiError.ip (IpError.timeout (some 900))))
    else ok body

abbrev pub handler : Handler wire ℕ
handler = record {
  base_url = λ _. ok site;
  build_request = λ attempt. ok attempt;
  handle_response = λ status _ body. answered status body;
  rate_limit_key_name = none;
}

abbrev pub banning : Response wire
banning = record { status = 429; headers = tt; body = ok 7 }

abbrev pub world : World wire
world = record {
  join = λ url. some url;
  mock_file = none;
  test_file = λ _. none;
  gate_time = 500;
  ban_time = 500;
  rounds = [];
  jitter = λ _. 0;
  execute = λ _ _. ok banning;
}

abbrev pub client : Client decimal
client = record {
  pool = 0;
  net_dirty = true;
  config = Config.default decimal;
  rate_limiter = none;
  banned_until = λ _. none;
}

abbrev banned_client : Client decimal
banned_client = record client { banned_until = insert key 900 (λ _. none) }

-- The client behind the report, and behind a call that is refused.
abbrev told_client : Client decimal
told_client = record client { banned_until = insert key 900 (λ _. none) }

abbrev refused : Reply wire decimal ℕ
refused =
    reply wire decimal handler world (still_banned wire decimal handler world 900)
      (heal wire decimal handler world told_client) 0

told_client_lem : (settle wire decimal handler world key 1 banning client).client ≡ told_client
unfolding settle Config.default of_config
told_client_lem = refl

request-refused : request wire decimal handler world told_client ≡ finished refused
unfolding request gate Config.default bucket of_config
request-refused = refl

told-Later :
    Later wire decimal key 900
      (settle wire decimal handler world key 1 banning client).client
      refused.client
told-Later =
    rw told_client_lem (behind handler world refused at_once request-refused (inr (ground arith)))

reported_ban_gates_example :
    (r : Reply wire decimal ℕ) × (request wire decimal handler world refused.client ≡ finished r)
    × (r.result
        ≡ err (
            RequestError.handle_response
              (HandleError.api (ApiError.ip (IpError.timeout (some 900))))))
    × (r.sent ≡ 0)
    × (r.client.banned_until key ≡ some 900)
unfolding Config.default bucket
reported_ban_gates_example =
    reported_ban_gates wire decimal handler world key 1 banning client refused.client 7 (some 900)
      handler world site site 900 refl refl refl refl refl told-Later refl refl refl refl
      (ground arith)

-- Behind the end of the ban the server answers.
abbrev later : World wire
later = record world {
  gate_time = 950;
  execute = λ _ _. ok (record { status = 200; headers = tt; body = ok 7 });
}

gate-expired_example :
    (gate wire decimal handler later key banned_client
      ≡ gate wire decimal handler later key
          (record banned_client { banned_until = remove key banned_client.banned_until }))
    × (gate wire decimal handler later key banned_client
        ≡ admit wire decimal handler later key
            (record banned_client { banned_until = remove key banned_client.banned_until }))
    × ((r : Reply wire decimal ℕ)
        → gate wire decimal handler later key banned_client ≡ finished r
        → (r.client.banned_until key ≡ none)
          ⊎ ((again : Option ℕ) × (reported wire decimal handler later r.result ≡ some again)
              × (r.client.banned_until key
                  ≡ some (ban_end banned_client.config.ban_cooldown later.ban_time again))))
gate-expired_example =
    gate-expired wire decimal handler later key banned_client 900 refl (ground arith)

send-finishes_example :
    (r : Reply wire decimal ℕ) × (send wire decimal handler world key client ≡ finished r)
    × BansAtMost wire decimal handler world key client r
    × (r.sent ≤ client.config.retry.max_retries + 1)
send-finishes_example = send-finishes wire decimal handler world key client
