-- ===== src/Adapters/Kucoin/Stream/Unsubscribed.antt =====
-- KuCoin's handler under a connection: every value surfaces, and no message is ever made.
use v_exchanges.Prelude.{◌≡◌, ◌∙◌, refl, Bool, true, List, [], ◌∷◌, ◌++◌, map, ok, arith}
use mathlib.Core.List.{append_assoc, append-nil}
use v_exchanges.Ws.Messages.{Frame, ContentEvent}
use v_exchanges.Ws.Batch
use v_exchanges.Ws.Batch.{Drain, drain}
use v_exchanges.Ws.Batch.Feed.{before_end, has_end, all_expected, values, feed, drain-feed}
use v_exchanges.Adapters.Kucoin.Stream.{
  Message, Libraries, StreamOptions, handle_auth, handle_jrpc, event_of, protocol,
}

module _ {Value : Type 0} (lib : Libraries Value) (Url Rest : Type 0) (auth : Rest → Bool) where
  abbrev pub surfaced :
      List (ContentEvent Value)
      → Drain (protocol lib Url Rest auth)
      → Drain (protocol lib Url Rest auth)
  surfaced events d = record d { content = d.content ++ events }

  feed-surfaced :
      (closed : Bool) (vs : List Value) (d : Drain (protocol lib Url Rest auth))
      → feed (protocol lib Url Rest auth) closed vs d
        ≡ Batch.ended closed (surfaced (map (event_of lib) vs) d)
  unfolding handle_jrpc
  feed-surfaced closed [] d = rw (append-nil d.content) refl
  feed-surfaced closed (v ∷ vs) d =
      feed-surfaced closed vs (surfaced (event_of lib v ∷ []) d)
      ∙ rw (append_assoc d.content (event_of lib v ∷ []) (map (event_of lib) vs)) refl

  -- A batch that the connection does not panic on ends with one event for each of its values before
  -- its end, in the order they came, whatever they say: KuCoin's
  -- refusals are events too. Neither a batch nor the start of a connection ever makes a message, so no topic is
  -- asked for.
  pub drain-surfaced :
      (frames : List (Frame Value)) (d : Drain (protocol lib Url Rest auth))
      (options : StreamOptions Url Rest) (messages : List Message)
      → all_expected (protocol lib Url Rest auth) (before_end (protocol lib Url Rest auth) frames)
        ≡ true
      → handle_auth auth options ≡ ok messages
      → (messages ≡ [])
        × (drain (protocol lib Url Rest auth) frames d
            ≡ Batch.ended (has_end (protocol lib Url Rest auth) frames) (
                surfaced
                  (map (event_of lib) (
                    values
                      (protocol lib Url Rest auth)
                      (before_end (protocol lib Url Rest auth) frames)))
                  d))
  unfolding handle_auth
  drain-surfaced frames d options messages expected h =
      (ground arith, drain-feed _ frames d expected ∙ feed-surfaced _ _ d)
