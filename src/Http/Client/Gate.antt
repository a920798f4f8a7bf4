-- ===== src/Http/Client/Gate.antt =====
-- The ban gate of `Client::request`: a reported ban, the refusals that follow, and its end.
use v_exchanges.Prelude.{
  ℕ, ◌+◌, ◌≤◌, ◌≡◌, ◌≢◌, ◌∙◌, ap, sym, refl, ◌⊎◌, inl, inr, true, false, Option, none, some, ok,
  err, Map, insert_self, insert_other, remove, remove_self, remove_other, Text, text_eq, arith,
  Option-cases, Result-cases, Bool-cases, ltb,
}
use v_exchanges.Ratelimiter.Limiter.{until_key_ready_n}
use v_exchanges.Retry.Float.{Float}
use v_exchanges.Http.Errors.{IpError, ApiError, HandleError}
use v_exchanges.Http.Bucket.{bucket}
use v_exchanges.Http.Parts.{Wire, Client, Handler, Response, World, Reply, finished}
use v_exchanges.Http.Client.{settle, send, admit, gate, request, heal, mock_cached, unban_time}
use v_exchanges.Http.Client.Sending.{reported, bans_as, BansAtMost, send-finishes}

-- When a ban ends that a response reports: at the time it names, or else behind the cool-down.
abbrev pub ban_end : ℕ → ℕ → Option ℕ → ℕ
ban_end cooldown reported_at none = reported_at + cooldown
ban_end cooldown reported_at (some until) = until

module _ (w : Wire) (fl : Float) {S : Type 0} (handler : Handler w S) (world : World w) where
  abbrev pub key_of : w.Url → Text
  key_of url = bucket (w.host url) handler.rate_limit_key_name

  pub settle-bans :
      (key : Text) (sent : ℕ) (response : Response w) (c : Client fl) (body : w.Body)
      (until : Option ℕ)
      → c.config.use_testnet ≡ false
      → response.body ≡ ok body
      → w.is_utf8 body ≡ true
      → handler.handle_response response.status response.headers body
        ≡ err (HandleError.api (ApiError.ip (IpError.timeout until)))
      → (settle w fl handler world key sent response c).client.banned_until key
        ≡ some (ban_end c.config.ban_cooldown world.ban_time until)
  unfolding settle
  settle-bans key sent response c body until mainnet pb utf8 ph = elim (Option-cases until) [
    | inl e ↦
        ground (arith, insert_self key (world.ban_time + c.config.ban_cooldown) c.banned_until)
    | inr (t, e) ↦ ground (arith, insert_self key t c.banned_until)
  ]

  send-bans :
      (key : Text) (c : Client fl) (r : Reply w fl S)
      → send w fl handler world key c ≡ finished r
      → BansAtMost w fl handler world key c r
  send-bans key c r p =
      let (r', q, bans, _) = send-finishes w fl handler world key c in
      let same : r' ≡ r = cc in rw same at bans

  -- What a reply may leave: the configuration, and the bans as before or as it reports.
  abbrev Leaves : Text → Client fl → Reply w fl S → Type 0
  Leaves key c r =
      (r.client.config ≡ c.config)
      × ((r.client.banned_until ≡ c.banned_until)
          ⊎ (r.client.banned_until
              ≡ bans_as w fl handler world key c.config.ban_cooldown
                  (reported w fl handler world r.result) c.banned_until))

  send-Leaves :
      (key : Text) (c : Client fl) (r : Reply w fl S)
      → send w fl handler world key c ≡ finished r
      → Leaves key c r
  send-Leaves key c r p = elim (send-bans key c r p) [
    | inl e ↦ (ap (λ (x : Client fl). x.config) e, inl (ap (λ (x : Client fl). x.banned_until) e))
    | inr e ↦ (ap (λ (x : Client fl). x.config) e, inr (ap (λ (x : Client fl). x.banned_until) e))
  ]

  admit-Leaves :
      (key : Text) (c : Client fl) (r : Reply w fl S)
      → admit w fl handler world key c ≡ finished r
      → Leaves key c r
  unfolding admit
  admit-Leaves key c r p = elim (Option-cases c.rate_limiter) [
    | inl e ↦ send-Leaves key c r (ground arith)
    | inr (rl, e) ↦ elim (Option-cases (until_key_ready_n world.rounds rl key 1)) [
      | inl q ↦ absurd (ground arith)
      | inr ((ready, sleeps, rl'), q) ↦
          (send-Leaves key (record c { rate_limiter = some rl' }) r (ground arith))
    ]
  ]

  unban-end :
      (cooldown : ℕ) (until : Option ℕ)
      → unban_time w fl handler world cooldown until ≡ ban_end cooldown world.ban_time until
  unban-end cooldown none = refl
  unban-end cooldown (some until) = refl

  gate-free :
      (key : Text) (c : Client fl)
      → c.banned_until key ≡ none
      → gate w fl handler world key c ≡ admit w fl handler world key c
  unfolding gate
  gate-free key c free = rw (free, gate) refl

  gate-late :
      (key : Text) (c : Client fl) (until : ℕ)
      → c.banned_until key ≡ some until
      → ltb world.gate_time until ≡ false
      → gate w fl handler world key c
        ≡ admit w fl handler world key (record c { banned_until = remove key c.banned_until })
  unfolding gate
  gate-late key c until banned late = rw (banned, gate) (rw late refl)

  -- A ban that is over lets the call through: the gate does what it does without the ban, which is to
  -- ask the limiter and send. When the call has finished, the bucket is free, or banned anew as the
  -- reply itself reports, until the time that it names or else for the cool-down.
  pub gate-expired :
      (key : Text) (c : Client fl) (until : ℕ)
      → c.banned_until key ≡ some until
      → until ≤ world.gate_time
      → (gate w fl handler world key c
          ≡ gate w fl handler world key (record c { banned_until = remove key c.banned_until }))
        × (gate w fl handler world key c
            ≡ admit w fl handler world key (record c { banned_until = remove key c.banned_until }))
        × ((r : Reply w fl S)
            → gate w fl handler world key c ≡ finished r
            → (r.client.banned_until key ≡ none)
              ⊎ ((again : Option ℕ) × (reported w fl handler world r.result ≡ some again)
                  × (r.client.banned_until key
                      ≡ some (ban_end c.config.ban_cooldown world.ban_time again))))
  unfolding gate
  gate-expired key c until banned over =
      let c' : Client fl = record c { banned_until = remove key c.banned_until } in
      let free : c'.banned_until key ≡ none = remove_self key c.banned_until in
      let late : ltb world.gate_time until ≡ false = ground arith in
      (
        gate-late key c until banned late ∙ sym (gate-free key c' free),
        gate-late key c until banned late,
        λ r p.
            (let on : admit w fl handler world key c' ≡ finished r = ground arith in
              let at_key = λ (m : Map Text ℕ). m key in
              elim (admit-Leaves key c' r on).1 [
                | inl e ↦ inl (ap at_key e ∙ free)
                | inr e ↦ elim (Option-cases (reported w fl handler world r.result)) [
                  | inl n ↦ inl (ap at_key (rw n at e) ∙ free)
                  | inr (again, y) ↦ inr (
                    again,
                    y,
                    ap at_key (rw y at e)
                        ∙ insert_self key _ c'.banned_until
                        ∙ ap some (unban-end c.config.ban_cooldown again),
                  )
                ]
              ]),
      )

  admit-others :
      (key other : Text) (c : Client fl) (r : Reply w fl S)
      → other ≢ key
      → admit w fl handler world key c ≡ finished r
      → (r.client.config ≡ c.config) × (r.client.banned_until other ≡ c.banned_until other)
  admit-others key other c r apart p =
      let (config, bans) = admit-Leaves key c r p in
      let at_other = λ (m : Map Text ℕ). m other in
      elim bans [
        | inl e ↦ (config, ap at_other e)
        | inr e ↦ elim (Option-cases (reported w fl handler world r.result)) [
          | inl n ↦ (config, ap at_other (rw n at e))
          | inr (again, y) ↦
              (config, ap at_other (rw y at e) ∙ insert_other key other _ c.banned_until apart)
        ]
      ]

  pub gate-others :
      (key other : Text) (c : Client fl) (r : Reply w fl S)
      → other ≢ key
      → gate w fl handler world key c ≡ finished r
      → (r.client.config ≡ c.config) × (r.client.banned_until other ≡ c.banned_until other)
  unfolding gate
  gate-others key other c r apart p = elim (Option-cases (c.banned_until key)) [
    | inl e ↦ admit-others key other c r apart (ground arith)
    | inr (until, e) ↦ elim (Bool-cases (ltb world.gate_time until)) [
      | inl early ↦ ground arith
      | inr over ↦
          (let (config, bans) =
              admit-others key other (record c { banned_until = remove key c.banned_until }) r apart
                (ground arith) in
            (config, bans ∙ remove_other key other c.banned_until apart))
    ]
  ]

  pub request-others :
      (c : Client fl) (r : Reply w fl S) (other : Text)
      → ((url : w.Url) → other ≢ key_of url)
      → request w fl handler world c ≡ finished r
      → (r.client.config ≡ c.config) × (r.client.banned_until other ≡ c.banned_until other)
  unfolding request
  request-others c r other apart p = elim (Result-cases (handler.base_url c'.config.use_testnet)) [
    | inr (e, q) ↦ ground arith
    | inl (base, q) ↦ elim (Option-cases (world.join base)) [
      | inl n ↦ ground arith
      | inr (url, u) ↦ elim (Option-cases (mock_cached w fl handler world c')) [
        | inr (body, m) ↦ ground arith
        | inl m ↦ ground (arith, gate-others (key_of url) other c' r (apart url))
      ]
    ]
  ]
    where
      c' : Client fl
      c' = heal w fl handler world c
