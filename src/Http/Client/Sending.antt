-- ===== src/Http/Client/Sending.antt =====
-- The sending loop ends, and what it leaves of the client.
use v_exchanges.Prelude.{
  ℕ, zero, suc, ◌+◌, ◌≤◌, ◌<◌, ◌≡◌, refl, ◌⊎◌, inl, inr, Option, none, some, Result, err, Map,
  insert, Text, text_eq, arith, Option-cases, Result-cases, codes,
}
use v_exchanges.Retry.Float.{Float}
use v_exchanges.Retry.Backoff.{ExponentialBackoff, next_duration, of_config}
use v_exchanges.Http.Errors.{IpError, ApiError, HandleError, RequestError}
use v_exchanges.Http.Parts.{Wire, Client, Handler, Response, World, Reply, finished}
use v_exchanges.Http.Client.{settle, attempt_once, send_loop, send, reply, delayed, unban_time}

module _ (w : Wire) (fl : Float) {S : Type 0} (handler : Handler w S) (world : World w) where
  -- The ban that a result reports, with its time of unban.
  abbrev pub reported : Result RequestError S → Option (Option ℕ)
  reported
        (err
          (RequestError.handle_response (HandleError.api (ApiError.ip (IpError.timeout until))))) =
      some until
  reported _ = none

  -- The bans with that of the bucket set as reported.
  abbrev pub bans_as : Text → ℕ → Option (Option ℕ) → Map Text ℕ → Map Text ℕ
  bans_as key cooldown none bans = bans
  bans_as key cooldown (some until) bans =
      insert key (unban_time w fl handler world cooldown until) bans

  abbrev pub banned_as : Text → Option (Option ℕ) → Client fl → Client fl
  banned_as key ban c = record c {
    banned_until = bans_as key c.config.ban_cooldown ban c.banned_until;
  }

  -- A reply leaves the client as it was, or with the bucket banned as the reply itself reports.
  abbrev pub BansAtMost : Text → Client fl → Reply w fl S → Type 0
  BansAtMost key c r = (r.client ≡ c) ⊎ (r.client ≡ banned_as key (reported r.result) c)

  settle-BansAtMost :
      (key : Text) (sent : ℕ) (response : Response w) (c : Client fl)
      → BansAtMost key c (settle w fl handler world key sent response c)
        × ((settle w fl handler world key sent response c).sent ≡ sent)
  unfolding settle
  settle-BansAtMost key sent response c = ground arith

  attempt_once-ends :
      (key : Text) (attempt : ℕ) (c : Client fl) (r : Reply w fl S)
      → attempt_once w fl handler world key attempt c ≡ some r
      → BansAtMost key c r × (r.sent ≤ attempt + 1)
  unfolding attempt_once
  attempt_once-ends key attempt c r p = ground arith

  attempt_once-retries :
      (key : Text) (attempt : ℕ) (c : Client fl)
      → attempt_once w fl handler world key attempt c ≡ none
      → attempt < c.config.retry.max_retries
  unfolding attempt_once
  attempt_once-retries key attempt c p = ground arith

  send_loop-total :
      (fuel : ℕ) (key : Text) (attempt : ℕ) (b : ExponentialBackoff fl) (c : Client fl)
      → attempt ≤ c.config.retry.max_retries
      → c.config.retry.max_retries < attempt + fuel
      → (r : Reply w fl S) × (send_loop w fl handler world fuel key attempt b c ≡ some r)
        × BansAtMost key c r
        × (r.sent ≤ c.config.retry.max_retries + 1)
  unfolding send_loop
  send_loop-total zero key attempt b c h k = absurd (omega arith)
  send_loop-total (suc fuel) key attempt b c h k =
      elim (Option-cases (attempt_once w fl handler world key attempt c)) [
        | inr (r, p) ↦
            (let (bans, sent) = attempt_once-ends key attempt c r p in
              (r, rw (p, send_loop) refl, bans, omega arith))
        | inl p ↦
            (let (delay, b') = next_duration fl (world.jitter attempt) b in
              let (r, q, bans, sent) =
                send_loop-total fuel key (attempt + 1) b' c
                  (omega (arith, attempt_once-retries key attempt c p)) (omega arith) in
              (delayed w fl handler world delay r, rw (p, send_loop) (rw q refl), bans, sent))
      ]

  -- Past the gate and the limiter every call ends with a reply: at most `max_retries + 1` requests
  -- are sent, and the client is as before, or the bucket is banned and the reply reports that ban.
  pub send-finishes :
      (key : Text) (c : Client fl)
      → (r : Reply w fl S) × (send w fl handler world key c ≡ finished r)
        × BansAtMost key c r
        × (r.sent ≤ c.config.retry.max_retries + 1)
  unfolding send
  send-finishes key c = elim (Result-cases (of_config fl c.config.retry)) [
    | inl (b, p) ↦
        (let (r, q, bans, sent) =
            send_loop-total (suc c.config.retry.max_retries) key 0 b c (omega arith)
              (omega arith) in
          (r, rw (p, send) (rw q refl), bans, sent))
    | inr (e, p) ↦ (
      reply w fl handler world (err (RequestError.other (codes "Invalid retry configuration"))) c 0,
      rw (p, send) refl,
      inl refl,
      omega arith,
    )
  ]
