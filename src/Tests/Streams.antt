-- ===== src/Tests/Streams.antt =====
-- The theorems on WebSocket connections, with a handler that echoes numbers.
use v_exchanges.Prelude.{
  ℕ, ◌+◌, ◌≤◌, ◌≡◌, ◌⊎◌, refl, true, false, none, some, List, [], ◌∷◌, ok, ltb, ◌==◌, arith,
  if◌then◌else◌,
}
use v_exchanges.Retry.Backoff.{ExponentialBackoff, fresh, from_millis}
use v_exchanges.Retry.Backoff.Bounds.{IsValid}
use v_exchanges.Ws.Messages.{Protocol, Frame, text, ping, close, read, Answer}
use v_exchanges.Ws.Config
use v_exchanges.Ws.Connection.{closing, WsConnection, Dial, reconnect}
use v_exchanges.Ws.Batch.{Drain, drain}
use v_exchanges.Ws.Batch.Feed.{drain-feed, feed, has_end, values, before_end}
use v_exchanges.Ws.Next
use v_exchanges.Ws.Next.{Call, Tick, next, read_loop, renew, on_event, resume}
use v_exchanges.Ws.Next.Silence.{IsIdle, silent, written, pinged, silence-renews}
use v_exchanges.Ws.Next.Opening.{reconnect-waits}
use v_exchanges.Ws.Next.Stranded.{silences, stranded, queued, close-strands}
use v_exchanges.Tests.Retries.Decimal.{decimal}

-- A value from 100 on is content, a smaller one is answered with itself, and 0 is a pong; the
-- handler counts the values.
abbrev echo : ℕ → Answer ℕ ℕ
echo v = if ltb v 100 then Answer.response (v ∷ []) else Answer.content v

abbrev protocol : Protocol
protocol = record {
  Value = ℕ;
  Message = ℕ;
  Content = ℕ;
  Handler = ℕ;
  ping = 1;
  is_pong = λ v. v == 0;
  active_ping = λ _. 2 ∷ [];
  handle_auth = λ s. (ok (3 ∷ 4 ∷ []), s);
  handle_jrpc = λ v s. (ok (echo v), s + 1);
}

abbrev backoff : ExponentialBackoff decimal
backoff = fresh decimal 1_000_000_000 30_000_000_000 20 500 false

-- A connection that is open and idle since 100.
abbrev idle : WsConnection decimal protocol
idle = record {
  config = Config.default decimal;
  handler = 0;
  backoff = backoff;
  reconnect_after = none;
  fu = record { readers = 1; writer = none; pings = 0 };
  sink = true;
  outbox = [];
  connected_since = some 100;
  last_unanswered_communication = none;
  pending_reconnect = false;
}

abbrev dial : Dial decimal protocol
dial = record { succeeds = true; now = 700; jitter = 0; dropped = none }

abbrev frames : List (Frame ℕ)
frames =
    text (some 150)
    ∷ ping
    ∷ text (some 0)
    ∷ text (some 7)
    ∷ text (some 160)
    ∷ close
    ∷ text none
    ∷ []

abbrev call : Call decimal protocol
call = record {
  dropped = false;
  now = 600;
  deferred = dial;
  refresh = dial;
  first = dial;
  ticks = record { now = 600; event = read frames; dial = dial } ∷ [];
}

abbrev start : Drain protocol
start = record { handler = 0; outbox = []; content = [] }

drain-feed_example :
    drain protocol frames start
    ≡ feed protocol (has_end protocol frames) (values protocol (before_end protocol frames)) start
drain-feed_example = drain-feed protocol frames start refl

idle-IsIdle : IsIdle decimal protocol idle
unfolding Config.default
idle-IsIdle = record { parked = refl; quiet = refl; answered = refl; patient = ground arith }

silence-renews_example :
    read_loop decimal protocol
      (silent decimal protocol 200 dial
        ∷ written decimal protocol 210 dial
        ∷ silent decimal protocol 300 dial
        ∷ [])
      []
      idle
    ≡ renew decimal protocol dial [] (pinged decimal protocol 210 idle)
silence-renews_example = silence-renews decimal protocol 200 210 300 dial dial dial idle idle-IsIdle

backoff-IsValid : IsValid decimal backoff
backoff-IsValid = record {
  positive = ground arith;
  ordered = ground arith;
  representable = ground arith;
  capped = ground arith;
  factor_low = refl;
  factor_high = refl;
}

abbrev lost : Dial decimal protocol
lost = record { succeeds = false; now = 700; jitter = 20; dropped = none }

reconnect-waits_example :
    let (r, c) = reconnect decimal protocol lost idle in
    (c.connected_since ≡ none)
    × IsValid decimal c.backoff
    × ((c.reconnect_after ≡ none)
        ⊎ ((until : ℕ) × (c.reconnect_after ≡ some until)
            × (until ≤ 700 + (30_000_000_000 + from_millis 500))))
reconnect-waits_example =
    reconnect-waits decimal protocol lost idle refl backoff-IsValid (ground arith)

-- A connection that has returned its content before a close, and the call that is dropped.
abbrev ended : WsConnection decimal protocol
ended = record idle { pending_reconnect = true }

abbrev dropped_call : Call decimal protocol
dropped_call = record call { deferred = record dial { dropped = some closing } }

abbrev timeouts : List (ℕ × Dial decimal protocol)
timeouts = (800, dial) ∷ (900, dial) ∷ []

abbrev silent_call : Call decimal protocol
silent_call = record call { ticks = silences decimal protocol timeouts }

close-strands_example :
    (next decimal protocol dropped_call ended ≡ Next.cancelled [] (stranded decimal protocol ended))
    × (next decimal protocol silent_call (stranded decimal protocol ended)
        ≡ Next.pending [] (queued decimal protocol (1 ∷ 1 ∷ []) (stranded decimal protocol ended)))
unfolding Config.default
close-strands_example =
    close-strands decimal protocol dropped_call silent_call timeouts ended 100 refl refl refl refl
      refl refl refl refl
