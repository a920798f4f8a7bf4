-- ===== src/Http/Client/Banned.antt =====
-- What a reported ban does to the calls that follow it.
use v_exchanges.Prelude.{
  ℕ, ◌<◌, ◌≡◌, ◌≢◌, ◌∙◌, ap, refl, ◌⊎◌, inl, inr, true, false, Option, none, some, ok, err, Text,
  text_eq, arith, Option-cases, Result-cases, Bool-cases,
}
use v_exchanges.Retry.Float.{Float}
use v_exchanges.Http.Errors.{IpError, ApiError, HandleError, RequestError}
use v_exchanges.Http.Bucket.{bucket}
use v_exchanges.Http.Parts.{Wire, Client, Handler, Response, World, Reply, finished}
use v_exchanges.Http.Client.{settle, gate, request, reply, heal, mock_cached, still_banned}
use v_exchanges.Http.Client.Gate.{ban_end, key_of, settle-bans, gate-others, request-others}

module _ (w : Wire) (fl : Float) where
  module _ {S : Type 0} (handler : Handler w S) (world : World w) where
    heal-bans : (c : Client fl) → (heal w fl handler world c).banned_until ≡ c.banned_until
    heal-bans c = elim (Bool-cases c.net_dirty) [ inl e ↦ rw e refl | inr e ↦ rw e refl ]

    gate-early :
        (key other : Text) (c : Client fl) (r : Reply w fl S) (unban : ℕ)
        → c.banned_until key ≡ some unban
        → world.gate_time < unban
        → gate w fl handler world other c ≡ finished r
        → r.client.banned_until key ≡ some unban
    unfolding gate
    gate-early key other c r unban banned early p = elim (Bool-cases (text_eq.beq key other)) [
      | inl b ↦ (let same : key ≡ other = (text_eq.beq_iff key other).0 b in ground arith)
      | inr b ↦
          (let apart : key ≢ other = λ q. ground (arith, text_eq.beq_iff key other) in
            (gate-others w fl handler world other key c r apart p).1 ∙ banned)
    ]

    request-early :
        (key : Text) (c : Client fl) (r : Reply w fl S) (unban : ℕ)
        → c.banned_until key ≡ some unban
        → world.gate_time < unban
        → request w fl handler world c ≡ finished r
        → r.client.banned_until key ≡ some unban
    unfolding request
    request-early key c r unban banned early p =
        let c' = heal w fl handler world c in
        let still : c'.banned_until key ≡ some unban = ap (λ m. m key) (heal-bans c) ∙ banned in
        elim (Result-cases (handler.base_url c'.config.use_testnet)) [
          | inr (e, q) ↦ ground arith
          | inl (base, q) ↦ elim (Option-cases (world.join base)) [
            | inl n ↦ ground arith
            | inr (url, u) ↦ elim (Option-cases (mock_cached w fl handler world c')) [
              | inr (body, m) ↦ ground arith
              | inl m ↦
                  gate-early key (key_of w fl handler world url) c' r unban still early
                    (ground arith)
            ]
          ]
        ]

  -- The states behind some calls that have finished, with any handlers, each of another bucket or
  -- before a time.
  pub data Later (key : Text) (unban : ℕ) (c : Client fl) : Client fl → Type 1 where
    at_once : Later key unban c c
    behind :
        {S : Type 0} {c' : Client fl} (handler : Handler w S) (world : World w) (r : Reply w fl S)
        → Later key unban c c'
        → request w fl handler world c' ≡ finished r
        → ((url : w.Url) → key ≢ key_of w fl handler world url) ⊎ (world.gate_time < unban)
        → Later key unban c r.client

  later-bans :
      (key : Text) (unban : ℕ) (c c' : Client fl)
      → Later key unban c c'
      → c.banned_until key ≡ some unban
      → c'.banned_until key ≡ some unban
  later-bans key unban c _ at_once h = h
  later-bans key unban c _ (behind {S} {c'} handler world r before p (inl apart)) h =
      (request-others w fl handler world c' r key apart p).1 ∙ later-bans key unban c c' before h
  later-bans key unban c _ (behind {S} {c'} handler world r before p (inr early)) h =
      request-early handler world key c' r unban (later-bans key unban c c' before h) early p

  -- A ban that a response reports outside of the test network is remembered through all calls that
  -- follow, of other buckets at any time and of its own before the ban ends: until then a call of the
  -- bucket that no mock file answers, with whatever handler and result type, sends nothing and is
  -- refused with the time of unban, which is the reported one or else the time of the report and the
  -- cool-down, and the ban stays.
  pub reported_ban_gates :
      {S S' : Type 0} (handler : Handler w S) (world : World w) (key : Text) (sent : ℕ)
      (response : Response w) (c c' : Client fl) (body : w.Body) (until : Option ℕ)
      (handler' : Handler w S') (world' : World w) (base url : w.Url) (unban : ℕ)
      → c.config.use_testnet ≡ false
      → response.body ≡ ok body
      → w.is_utf8 body ≡ true
      → handler.handle_response response.status response.headers body
        ≡ err (HandleError.api (ApiError.ip (IpError.timeout until)))
      → ban_end c.config.ban_cooldown world.ban_time until ≡ unban
      → Later key unban (settle w fl handler world key sent response c).client c'
      → handler'.base_url c'.config.use_testnet ≡ ok base
      → world'.join base ≡ some url
      → bucket (w.host url) handler'.rate_limit_key_name ≡ key
      → mock_cached w fl handler' world' c' ≡ none
      → world'.gate_time < unban
      → (r : Reply w fl S') × (request w fl handler' world' c' ≡ finished r)
        × (r.result
            ≡ err (
                RequestError.handle_response
                  (HandleError.api (ApiError.ip (IpError.timeout (some unban))))))
        × (r.sent ≡ 0)
        × (r.client.banned_until key ≡ some unban)
  unfolding request gate
  reported_ban_gates handler world key sent response c c' body until handler' world' base url unban
        mainnet pb utf8 ph ends later based joined bucketed unmocked early =
      let reported =
        settle-bans w fl handler world key sent response c body until mainnet pb utf8 ph
        ∙ ap some ends in
      let banned = later-bans key unban _ c' later reported in
      (
        reply w fl handler' world' (still_banned w fl handler' world' unban)
            (heal w fl handler' world' c') 0,
        ground arith,
        refl,
        refl,
        ap (λ m. m key) (heal-bans handler' world' c') ∙ banned,
      )
