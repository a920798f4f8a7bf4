-- ===== src/Http/Parts.antt =====
-- The data of `Client::request` (v_exchanges_api_generics/src/http.rs): the client, a request's
-- handler, what the world does during a call, and what the call ends with.
use v_exchanges.Prelude.{ℕ, Bool, Option, List, Result, Map, Text, text_eq}
use v_exchanges.Ratelimiter.Limiter.{RateLimiter}
use v_exchanges.Retry.Float.{Float}
use v_exchanges.Http.Errors.{HandleError, BuildError, UrlError, SendError, RequestError}
use v_exchanges.Http.Config.{RequestConfig}

-- The types of the HTTP library, and what the client asks of them.
pub record Wire : Type 1 where
  pub Url : Type 0
  pub Request : Type 0
  pub Headers : Type 0
  pub Body : Type 0
  pub host : Url → Option Text
  pub no_headers : Headers
  pub is_utf8 : Body → Bool

pub record Client (fl : Float) : Type 0 where
  -- How often the connection pool was built anew.
  pub pool : ℕ
  pub net_dirty : Bool
  pub config : RequestConfig fl
  pub rate_limiter : Option (RateLimiter Text)
  pub banned_until : Map Text ℕ

module _ (w : Wire) where
  open w use {Url, Request, Headers, Body, host, no_headers, is_utf8}

  -- `RequestHandler`, with the response's success type `S`.
  pub record Handler (S : Type 0) : Type 0 where
    pub base_url : Bool → Result UrlError Url
    pub build_request : ℕ → Result BuildError Request
    pub handle_response : ℕ → Headers → Body → Result HandleError S
    pub rate_limit_key_name : Option Text

  pub record Response : Type 0 where
    pub status : ℕ
    pub headers : Headers
    pub body : Result Text Body

  -- What the world does during one call: the URL joined, the cached files with their ages, the
  -- clock at the ban gate and at a recorded ban, the limiter's rounds, the jitter, the network.
  pub record World : Type 0 where
    pub join : Url → Option Url
    pub mock_file : Option (Body × ℕ)
    pub test_file : ℕ → Option (Body × ℕ)
    pub gate_time : ℕ
    pub ban_time : ℕ
    pub rounds : List (ℕ × ℕ)
    pub jitter : ℕ → ℕ
    pub execute : ℕ → Request → Result SendError Response

  -- The end of a call: its result, the client, how many requests were sent, the delays between
  -- them, and the bodies written to the two caches.
  pub record Reply (fl : Float) (S : Type 0) : Type 0 where
    pub result : Result RequestError S
    pub client : Client fl
    pub sent : ℕ
    pub delays : List ℕ
    pub mock_written : Option Body
    pub test_written : Option Body

  -- A call is finished, or waits for the limiter beyond the rounds given, or panicked there.
  pub data Progress (fl : Float) (S : Type 0) : Type 0 where
    finished : Reply fl S → Progress fl S
    waiting panicked : Progress fl S
