-- ===== src/Methods/Requests.antt =====
-- The parameters of requests: `RequestRange::serialize` of v_exchanges_methods/src/core.rs and
-- `join_params` of utils.rs. A JSON object is a map; what a timestamp has of milliseconds is the time
-- library's.
use v_exchanges.Prelude.{ℕ, Option, none, some, Text, codes, Map, insert, text_eq}
use v_exchanges.Methods.Ranges.{RequestRange, span, limit}

pub data Param : Type 0 where
  number : ℕ → Param
  text : Text → Param

abbrev pub Params : Type 0
Params = Map Text Param

abbrev pub no_params : Params
no_params _ = none

-- The exchanges that ranges are written for, and the others.
pub data ExchangeName : Type 0 where
  binance bybit other_exchange : ExchangeName

-- A null is left out.
abbrev pub insert_some : Text → Option Param → Params → Params
insert_some k none params = params
insert_some k (some v) params = insert k v params

-- The entries of the second object take the place of those of the first.
abbrev pub join_params : Params → Params → Params
join_params a b k = elim (b k) [ none ↦ a k | some v ↦ some v ]

module _ (as_millisecond : ℕ → ℕ) where
  abbrev pub end_time : Option ℕ → Option Param
  end_time none = none
  end_time (some t) = some (number (as_millisecond t))

  abbrev pub serialize_common : RequestRange → Params
  serialize_common (span start end) =
      insert (codes "startTime") (number (as_millisecond start))
        (insert_some (codes "endTime") (end_time end) no_params)
  serialize_common (limit n) = insert (codes "limit") (number n) no_params

  -- `RequestRange::serialize`; it is not implemented for the other exchanges.
  unfoldable pub serialize : ExchangeName → RequestRange → Option Params
  serialize binance range = some (serialize_common range)
  serialize bybit range = some (serialize_common range)
  serialize other_exchange range = none
