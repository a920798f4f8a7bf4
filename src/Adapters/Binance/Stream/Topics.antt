-- ===== src/Adapters/Binance/Stream/Topics.antt =====
-- Which streams a connection to Binance asks for, and what surfaces from it.
use v_exchanges.Prelude.{
  ℕ, ◌≡◌, ◌≢◌, ◌⊎◌, true, Option, none, some, List, [], ◌∷◌, ok, err, Text, codes, split, join_with,
  all_lack, split-join_with, arith, Option-cases, Result-cases, inl, inr, ◌||◌, ap, ◌∙◌, text_beq,
  text_beq_refl, Bool-cases, ℤ, refl, ◌++◌, text_beq-eq,
}
use v_exchanges.Http.Errors.{ConstructAuthError}
use v_exchanges.Ws.Messages
use v_exchanges.Ws.Messages.{WsError}
use v_exchanges.Adapters.Traits.{StreamConfig, base_url, union, contains}
use v_exchanges.Adapters.Binance.Options.{BinanceOptions}
use v_exchanges.Adapters.Binance.Urls.{BinanceWsUrl, ws_endpoint}
use v_exchanges.Adapters.Binance.Stream.{
  Libraries, endpoint_of, stream_path, unnamed, config, handle_jrpc,
}

abbrev expired : Text
expired = codes "listenKeyExpired"

abbrev slash : ℕ
slash = 47

contains-union :
    (a b : List Text) (t : Text) → contains (union a b) t ≡ contains a t || contains b t
contains-union a [] t = ground arith
contains-union a (x ∷ b) t = ground (arith, contains-union a b t, text_beq-eq x t)

module _ {Url Rest : Type 0} (options : BinanceOptions (StreamConfig Url Rest))
    (parse : Text → Option Url) (join : Url → Text → Option Url) where
  config-joined :
      (url : BinanceWsUrl) (c : StreamConfig Url Rest)
      → endpoint_of options.ws_url ≡ some url
      → config options parse join ≡ some (ok c)
      → (base joined : Url) × (base_url parse url options.test ≡ some (ok base))
        × (join base (stream_path c.topics) ≡ some joined)
        × (c.url ≡ some joined)
        × (c.topics ≡ union options.ws_config.topics options.ws_topics)
  unfolding config
  config-joined url c e h = elim (Option-cases (base_url parse url options.test)) [
    | inl f ↦ ground arith
    | inr (r, f) ↦ elim (Result-cases r) [
      | inr (x, g) ↦ ground arith
      | inl (base, g) ↦
          elim (Option-cases
            (join base (stream_path (union options.ws_config.topics options.ws_topics)))) [
              | inl j ↦ ground arith
              | inr (joined, j) ↦
                  (base, joined, ground arith, ground arith, ground arith, ground arith)
            ]
    ]
  ]

  -- Where the URL is not left as it is, a configuration that is built has the topics of the
  -- options and of the given configuration, and none else; and its URL is the base URL of the
  -- network joined with "stream?streams=" and a text, whose parts between slashes are those topics,
  -- in order, if there is one and none has a slash of its own.
  pub config-streams :
      (url : BinanceWsUrl) (c : StreamConfig Url Rest)
      → endpoint_of options.ws_url ≡ some url
      → config options parse join ≡ some (ok c)
      → c.topics ≢ []
      → all_lack slash c.topics ≡ true
      → ((t : Text)
          → contains c.topics t
            ≡ contains options.ws_config.topics t || contains options.ws_topics t)
        × ((base joined : Url) × (streams : Text) × (base_url parse url options.test
              ≡ some (ok base))
            × (join base (codes "stream?streams=" ++ streams) ≡ some joined)
            × (c.url ≡ some joined)
            × (split slash streams ≡ c.topics))
  config-streams url c e h n lack =
      let (base, joined, b, j, u, t) = config-joined url c e h in
      (
        λ topic. ap (λ ts. contains ts topic) t ∙ contains-union _ _ topic,
        (base, joined, join_with (codes "/") c.topics, b, j, u, parts c.topics n lack),
      )
    where
      parts :
          (ts : List Text)
          → ts ≢ []
          → all_lack slash ts ≡ true
          → split slash (join_with (codes "/") ts) ≡ ts
      parts [] n lack = absurd (n refl)
      parts (t ∷ ts) n lack = split-join_with slash t ts lack

module _ {Value : Type 0} (lib : Libraries Value) where
  open lib use {from_value, is_object, event_field, time_field, without_fields, from_millisecond}

  unnamed-eq :
      (jrpc data_ : Value) (topic : Text)
      → (from_value jrpc ≡ some (topic, data_))
        ⊎ ((from_value jrpc ≡ none) × (topic ≡ []) × (data_ ≡ jrpc))
      → unnamed jrpc (from_value jrpc) ≡ (topic, data_)
  unnamed-eq jrpc data_ topic (inl e) = rw e refl
  unnamed-eq jrpc data_ topic (inr (e, p, q)) = rw e (cc)

  -- A value whose "data", or which itself when it names no stream, is an object with a text "e" and
  -- a time "E" in range surfaces under the name of its stream, without these two fields; but as a
  -- failed authentication when "e" is "listenKeyExpired".
  pub handle_jrpc-event :
      (jrpc data_ : Value) (topic event_type : Text) (ts time : ℤ)
      → (from_value jrpc ≡ some (topic, data_))
        ⊎ ((from_value jrpc ≡ none) × (topic ≡ []) × (data_ ≡ jrpc))
      → is_object data_ ≡ true
      → event_field data_ ≡ some event_type
      → time_field data_ ≡ some ts
      → from_millisecond ts ≡ some time
      → ((event_type ≡ expired)
          × (handle_jrpc lib jrpc
              ≡ some (err (Messages.auth (ConstructAuthError.other (codes "Listen key expired"))))))
        ⊎ ((event_type ≢ expired)
            × (handle_jrpc lib jrpc
                ≡ some (
                    ok (
                      Messages.content (record {
                        data_ = without_fields data_;
                        topic = topic;
                        time = time;
                        event_type = event_type;
                      })))))
  unfolding handle_jrpc
  handle_jrpc-event jrpc data_ topic event_type ts time named object e t m =
      elim (Bool-cases (text_beq event_type expired)) [
        | inl b ↦ inl (text_beq-eq _ _ b, rw (unnamed-eq jrpc data_ topic named) ground arith)
        | inr b ↦ inr (
          λ same. absurd (ground (arith, text_beq_refl expired)),
          rw (unnamed-eq jrpc data_ topic named) ground arith,
        )
      ]
