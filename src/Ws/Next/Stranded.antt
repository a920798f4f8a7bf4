-- ===== src/Ws/Next/Stranded.antt =====
-- A connection whose sink was lost with a call that was dropped at the `Close`.
use v_exchanges.Prelude.{ℕ, ◌≡◌, refl, ◌∙◌, true, false, none, some, List, [], ◌∷◌, ◌++◌, arith}
use v_exchanges.Retry.Float.{Float}
use v_exchanges.Ws.Messages.{Protocol}
use v_exchanges.Ws.Connection.{
  Dial, closing, taken, abandoned, WsConnection, try_flush_outbox, choose_timeout,
}
use v_exchanges.Ws.Next
use v_exchanges.Ws.Next.{
  Tick, Call, on_event, turn, read_loop, resume, refresh, open_first, is_due, renew, next, and_then,
}
use v_exchanges.Ws.Next.Silence.{silent}

append_assoc :
    {A : Type 0} (xs : List A) (y : A) (zs : List A) → (xs ++ y ∷ []) ++ zs ≡ xs ++ y ∷ zs
append_assoc [] y zs = refl
append_assoc (x ∷ xs) y zs = rw (append_assoc xs y zs) refl

append_none : {A : Type 0} (xs : List A) → xs ++ [] ≡ xs
append_none [] = refl
append_none (x ∷ xs) = rw (append_none xs) refl

module _ (fl : Float) (p : Protocol) where
  open p use {Message}

  -- Timeouts, each at its time.
  abbrev pub silences : List (ℕ × Dial fl p) → List (Tick fl p)
  silences [] = []
  silences ((now, dial) ∷ more) = silent fl p now dial ∷ silences more

  -- A ping for each of them.
  abbrev pub pings : List (ℕ × Dial fl p) → List Message
  pings [] = []
  pings (_ ∷ more) = p.ping ∷ pings more

  -- The connection with more in its outbox.
  abbrev pub queued : List Message → WsConnection fl p → WsConnection fl p
  queued messages c = record c { outbox = c.outbox ++ messages }

  silence-queues :
      (now : ℕ) (dial : Dial fl p) (c : WsConnection fl p)
      → c.sink ≡ false
      → c.last_unanswered_communication ≡ none
      → turn fl p (silent fl p now dial) [] c ≡ Next.pending [] (queued (p.ping ∷ []) c)
  unfolding turn try_flush_outbox choose_timeout on_event
  silence-queues now dial c s q = ground (arith, s, q)

  silences-queue :
      (ts : List (ℕ × Dial fl p)) (c : WsConnection fl p)
      → c.sink ≡ false
      → c.last_unanswered_communication ≡ none
      → read_loop fl p (silences ts) [] c ≡ Next.pending [] (queued (pings ts) c)
  unfolding read_loop
  silences-queue [] c s q = rw (append_none c.outbox) refl
  silences-queue ((now, dial) ∷ ts) c s q = rw (silence-queues now dial c s q) (
      silences-queue ts (queued (p.ping ∷ []) c) s q
      ∙ rw (append_assoc c.outbox p.ping (pings ts)) refl)

  silence-strands :
      (call : Call fl p) (ts : List (ℕ × Dial fl p)) (c : WsConnection fl p) (since : ℕ)
      → c.sink ≡ false
      → c.connected_since ≡ some since
      → c.reconnect_after ≡ none
      → c.pending_reconnect ≡ false
      → c.last_unanswered_communication ≡ none
      → is_due fl p call.now c ≡ false
      → call.ticks ≡ silences ts
      → next fl p call c ≡ Next.pending [] (queued (pings ts) c)
  unfolding next resume refresh open_first
  silence-strands call ts c since s open_since awake settled quiet young ticks =
      ground
        (arith, s, open_since, awake, settled, quiet, young, ticks, silences-queue ts c s quiet)

  -- The connection behind a deferred reconnection that was dropped at the `Close`.
  abbrev pub stranded : WsConnection fl p → WsConnection fl p
  stranded c = taken fl p (record c { pending_reconnect = false })

  -- A call that starts with a deferred reconnection of an open connection, where the sink is parked
  -- and nothing is unanswered, and that is dropped at the `Close`, leaves the connection open and
  -- without a sink: a call that follows, with a silent peer and no refresh due, waits on, however
  -- often it times out, queues a ping each time, and neither writes one nor reconnects.
  pub close-strands :
      (call later : Call fl p) (ts : List (ℕ × Dial fl p)) (c : WsConnection fl p) (since : ℕ)
      → c.sink ≡ true
      → c.connected_since ≡ some since
      → c.pending_reconnect ≡ true
      → c.last_unanswered_communication ≡ none
      → call.dropped ≡ false
      → call.deferred.dropped ≡ some closing
      → is_due fl p later.now c ≡ false
      → later.ticks ≡ silences ts
      → (next fl p call c ≡ Next.cancelled [] (stranded c))
        × (next fl p later (stranded c) ≡ Next.pending [] (queued (pings ts) (stranded c)))
  unfolding next resume renew abandoned
  close-strands call later ts c since s open_since deferred quiet through drop young ticks = (
    ground (arith, s, deferred, through, drop),
    silence-strands later ts (stranded c) since refl open_since refl refl quiet young ticks,
  )
