-- ===== src/Adapters/Bybit/Response/Bans.antt =====
-- What the HTTP client does with a ban that Bybit reports.
use v_exchanges.Prelude.{
  ℕ, pos, ◌+◌, ◌≤◌, ◌<◌, ◌≡◌, ◌⊎◌, Bool, false, true, Option, none, some, Result, ok, err, arith,
  Text,
}
use v_exchanges.Retry.Float.{Float}
use v_exchanges.Http.Errors.{BuildError, UrlError, IpError, ApiError, HandleError}
use v_exchanges.Http.Parts.{Wire, Client, Handler, Response, World, finished}
use v_exchanges.Http.Client.{settle, gate, reply, still_banned}
use v_exchanges.Http.Client.Gate.{settle-bans}
use v_exchanges.Adapters.Bybit.Codes.{of_i32}
use v_exchanges.Adapters.Bybit.Response.{Decoder, api_error, handle_response}

-- The codes for too many visits, a banned address, and its rate limit.
abbrev pub IsBan : ℕ → Type 0
IsBan n = (n ≡ 10_006) ⊎ ((n ≡ 10_009) ⊎ (n ≡ 10_018))

handle_response-ban :
    {Body Value S : Type 0} (decoder : Decoder Body Value S) (status : ℕ) (body : Body)
    (value : Value) (n : ℕ)
    → 200 ≤ status
    → status < 300
    → decoder.from_slice body ≡ ok value
    → decoder.ret_code value ≡ some (pos n)
    → IsBan n
    → handle_response decoder status body
      ≡ err (HandleError.api (ApiError.ip (IpError.timeout none)))
unfolding handle_response api_error of_i32
handle_response-ban decoder status body value n low high p q ban = ground arith

module _ (w : Wire) (fl : Float) {Value S : Type 0} (decoder : Decoder w.Body Value S)
    (base_url : Bool → Result UrlError w.Url) (build_request : ℕ → Result BuildError w.Request)
    (rate_limit_key_name : Option Text) where
  -- `BybitRequestHandler`, by what it builds requests with.
  abbrev pub request_handler : Handler w S
  request_handler = record {
    base_url = base_url;
    build_request = build_request;
    handle_response = λ status _ body. handle_response decoder status body;
    rate_limit_key_name = rate_limit_key_name;
  }

  -- When a response of a main network is a success by its status, but its "retCode" is 10006, 10009
  -- or 10018, the call of the bucket that follows, whatever its handler, is refused at the gate until
  -- the client's own cool-down has passed.
  pub ban_code-gates :
      (world : World w) (key : Text) (sent : ℕ) (response : Response w) (c : Client fl)
      (body : w.Body) (value : Value) (n : ℕ) {S' : Type 0} (handler' : Handler w S')
      (world' : World w)
      → c.config.use_testnet ≡ false
      → response.body ≡ ok body
      → w.is_utf8 body ≡ true
      → 200 ≤ response.status
      → response.status < 300
      → decoder.from_slice body ≡ ok value
      → decoder.ret_code value ≡ some (pos n)
      → IsBan n
      → world'.gate_time < world.ban_time + c.config.ban_cooldown
      → let c' = (settle w fl request_handler world key sent response c).client in
        let unban = world.ban_time + c.config.ban_cooldown in
        gate w fl handler' world' key c'
        ≡ finished (reply w fl handler' world' (still_banned w fl handler' world' unban) c' 0)
  unfolding gate
  ban_code-gates world key sent response c body value n handler' world' main pb utf8 low high p q
        ban early =
      let refused = handle_response-ban decoder response.status body value n low high p q ban in
      let banned =
        settle-bans w fl request_handler world key sent response c body none main pb utf8 refused in
      ground (arith, banned)
