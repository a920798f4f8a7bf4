-- ===== src/Http/Client.antt =====
-- `Client::request` of v_exchanges_api_generics/src/http.rs. URLs, requests, headers and bodies, the
-- network, the files and the clocks are the environment's; a duration is its nanoseconds, and a
-- timestamp the nanoseconds since the epoch.
pub mod Sending
pub mod Gate
pub mod Banned
use v_exchanges.Prelude.{
  ℕ, zero, suc, ◌+◌, ◌%◌, Bool, true, false, not, ◌&&◌, Option, none, some, List, [], ◌∷◌, Result,
  ok, err, Map, insert, remove, Text, text_eq, codes, if◌then◌else◌, ltb, leb, is_none,
}
use v_exchanges.Ratelimiter.Limiter.{RateLimiter, until_key_ready_n}
use v_exchanges.Retry.Float.{Float}
use v_exchanges.Retry.Backoff.{ExponentialBackoff, next_duration, of_config}
use v_exchanges.Http.Errors
use v_exchanges.Http.Errors.{
  IpError, ApiError, HandleError, BuildError, UrlError, SendError, RequestError,
  is_retryable_request_error,
}
use v_exchanges.Http.Config.{RequestConfig, mock_cache_duration}
use v_exchanges.Http.Parts.{
  Wire, Client, Handler, Response, World, Reply, Progress, finished, waiting, panicked,
}
use v_exchanges.Http.Bucket.{bucket}

module _ (w : Wire) where
  open w use {Url, Request, Headers, Body, host, no_headers, is_utf8}

  -- A file that is younger than `limit`.
  abbrev pub fresh : Option (Body × ℕ) → ℕ → Option Body
  fresh none limit = none
  fresh (some (body, age)) limit = if ltb age limit then some body else none

  abbrev pub is_success : ℕ → Bool
  is_success status = leb 200 status && ltb status 300

  module _ (fl : Float) {S : Type 0} (handler : Handler w S) (world : World w) where
    open handler use {base_url, build_request, handle_response, rate_limit_key_name}
    open world use {join, mock_file, test_file, gate_time, ban_time, rounds, jitter, execute}

    abbrev pub handled : Result HandleError S → Result RequestError S
    handled (ok s) = ok s
    handled (err e) = err (RequestError.handle_response e)

    -- A reply that writes no cache.
    abbrev pub reply : Result RequestError S → Client fl → ℕ → Reply w fl S
    reply r c sent = record {
      result = r;
      client = c;
      sent = sent;
      delays = [];
      mock_written = none;
      test_written = none;
    }

    -- The ban that a response reports, if it does, with its time of unban.
    abbrev pub ban_of : Result HandleError S → Option (Option ℕ)
    ban_of (err (HandleError.api (ApiError.ip (IpError.timeout until)))) = some until
    ban_of _ = none

    abbrev pub unban_time : ℕ → Option ℕ → ℕ
    unban_time cooldown (some until) = until
    unban_time cooldown none = ban_time + cooldown

    abbrev pub record_ban : Text → Result HandleError S → Client fl → Client fl
    record_ban key r c = elim (ban_of r) [
      | some until ↦ record c {
        banned_until = insert key (unban_time c.config.ban_cooldown until) c.banned_until;
      }
      | none ↦ c
    ]

    -- What is done with a response, in the order of the code: its body is read and decoded, then
    -- written to the mock cache; on the test network the handled response is cached, and elsewhere a
    -- ban is recorded.
    unfoldable pub settle : Text → ℕ → Response w → Client fl → Reply w fl S
    settle key sent response c = elim response.body [
      | err e ↦ reply (err (Errors.receive_response e)) c sent
      | ok body ↦
          (if not (is_utf8 body)
            then reply (err Errors.utf8_error) c sent
            else (let mock =
                  if is_success response.status && not (is_none c.config.mock_cache_dir)
                  then some body
                  else none in
                let r = handle_response response.status response.headers body in
                if c.config.use_testnet
                then elim r [
                  | err e ↦ record (reply (err (RequestError.handle_response e)) c sent) {
                    mock_written = mock;
                  }
                  | ok s ↦ record (reply (ok s) c sent) {
                    mock_written = mock;
                    test_written = some body;
                  }
                ]
                else record (reply (handled r) (record_ban key r c) sent) { mock_written = mock }))
    ]

    -- The cached test call of an attempt, where the configuration asks for it.
    abbrev pub test_cached : Client fl → ℕ → Option Body
    test_cached c attempt =
        if c.config.use_testnet
        then elim c.config.cache_testnet_calls [
          | none ↦ none
          | some d ↦ fresh (test_file attempt) d
        ]
        else none

    -- One round of the sending loop: `some` ends the call, `none` retries.
    unfoldable pub attempt_once : Text → ℕ → Client fl → Option (Reply w fl S)
    unfolding settle
    attempt_once key attempt c = elim (test_cached c attempt) [
      | some body ↦ some (reply (handled (handle_response 200 no_headers body)) c attempt)
      | none ↦ elim (build_request ((attempt + 1) % 256)) [
        | err e ↦ some (reply (err (Errors.build_request e)) c attempt)
        | ok request ↦ elim (execute attempt request) [
          | ok response ↦ some (settle key (attempt + 1) response c)
          | err e ↦
              (if ltb attempt c.config.retry.max_retries && is_retryable_request_error e
                then none
                else some (reply (err (Errors.send_request e)) c (attempt + 1)))
        ]
      ]
    ]

    abbrev pub delayed : ℕ → Reply w fl S → Reply w fl S
    delayed d r = record r { delays = d ∷ r.delays }

    -- The sending loop, on fuel; `none` says that it ran out.
    unfoldable pub send_loop :
        ℕ → Text → ℕ → ExponentialBackoff fl → Client fl → Option (Reply w fl S)
    unfolding attempt_once
    send_loop zero key attempt backoff c = none
    send_loop (suc fuel) key attempt backoff c =
        let (delay, backoff') = next_duration fl (jitter attempt) backoff in
        let rest = send_loop fuel key (attempt + 1) backoff' c in
        elim (attempt_once key attempt c) [
          | some r ↦ some r
          | none ↦ elim rest [ none ↦ none | some r ↦ some (delayed delay r) ]
        ]

    -- The head of the call: a pool that is out of date is dropped.
    abbrev pub heal : Client fl → Client fl
    heal c = if c.net_dirty then record c { pool = c.pool + 1; net_dirty = false } else c

    -- Behind the gate and the limiter: fuel for `max_retries + 1` attempts is enough.
    unfoldable pub send : Text → Client fl → Progress w fl S
    unfolding send_loop
    send key c = elim (of_config fl c.config.retry) [
      | err e ↦ finished (reply (err (Errors.other (codes "Invalid retry configuration"))) c 0)
      | ok backoff ↦ elim (send_loop (suc c.config.retry.max_retries) key 0 backoff c) [
        | some r ↦ finished r
        | none ↦ panicked
      ]
    ]

    -- The wait for the limiter, one unit on the bucket.
    unfoldable pub admit : Text → Client fl → Progress w fl S
    unfolding send
    admit key c = elim c.rate_limiter [
      | none ↦ send key c
      | some rl ↦ elim (until_key_ready_n rounds rl key 1) [
        | none ↦ panicked
        | some (ready, _, rl') ↦
            (if ready then send key (record c { rate_limiter = some rl' }) else waiting)
      ]
    ]

    abbrev pub still_banned : ℕ → Result RequestError S
    still_banned until = err (
        RequestError.handle_response (HandleError.api (ApiError.ip (IpError.timeout (some until)))))

    -- The ban gate: a bucket is refused until its ban is over, and then forgotten.
    unfoldable pub gate : Text → Client fl → Progress w fl S
    unfolding admit
    gate key c = elim (c.banned_until key) [
      | none ↦ admit key c
      | some until ↦
          (if ltb gate_time until
            then finished (reply (still_banned until) c 0)
            else admit key (record c { banned_until = remove key c.banned_until }))
    ]

    abbrev pub mock_cached : Client fl → Option Body
    mock_cached c = elim c.config.mock_cache_dir [
      | none ↦ none
      | some _ ↦ fresh mock_file mock_cache_duration
    ]

    -- `Client::request`.
    unfoldable pub request : Client fl → Progress w fl S
    unfolding gate
    request c₀ =
        let c = heal c₀ in
        elim (base_url c.config.use_testnet) [
          | err e ↦ finished (reply (err (Errors.url e)) c 0)
          | ok base ↦ elim (join base) [
            | none ↦
                finished (reply (err (Errors.other (codes "Failed to parse provided URL"))) c 0)
            | some url ↦ elim (mock_cached c) [
              | some body ↦ finished (reply (handled (handle_response 200 no_headers body)) c 0)
              | none ↦ gate (bucket (host url) rate_limit_key_name) c
            ]
          ]
        ]
