-- ===== src/Methods/Ranges.antt =====
-- `RequestRange` of v_exchanges_methods/src/core.rs. Timestamps are nanoseconds since the epoch, of
-- times behind it; what `Span::get_milliseconds` answers to the difference of two timestamps is the
-- time library's.
pub mod Limits
use v_exchanges.Prelude.{
  ℤ, low_32, ℕ, ◌/◌, ◌%◌, ◌^◌, Bool, Option, none, some, if◌then◌else◌, ltb, leb, ◌==◌, ◌&&◌, not,
  Result, ok, err, Text, codes,
}

pub data RequestRange : Type 0 where
  span : ℕ → Option ℕ → RequestRange
  limit : ℕ → RequestRange

-- `From<i32>` and `From<usize>`; those of smaller unsigned numbers keep the number.
abbrev pub of_i32 : ℤ → RequestRange
of_i32 value = limit (low_32 value)

abbrev pub of_usize : ℕ → RequestRange
of_usize value = limit (value % 2 ^ 32)

abbrev pub of_u32 : ℕ → RequestRange
of_u32 value = limit value

-- `From<Timestamp>` and `From<(Timestamp, Timestamp)>`.
abbrev pub of_timestamp : ℕ → RequestRange
of_timestamp value = span value none

abbrev pub of_timestamps : ℕ × ℕ → RequestRange
of_timestamps (since, until) = span since (some until)

-- `OutOfRange` carries the allowed range and the limit that was asked for.
pub data RequestRangeError : Type 0 where
  out_of_range : ℕ × ℕ → ℕ → RequestRangeError
  others : Text → RequestRangeError

module _ (get_milliseconds : ℕ → ℕ → ℕ) where
  -- `as u32`.
  abbrev pub effective_limit : ℕ → ℕ → ℕ → ℕ
  effective_limit start end tf_ms = (get_milliseconds start end / tf_ms) % 2 ^ 32

  -- `ensure_allowed` for the allowed range `low..=high` and a timeframe of `tf_ms` milliseconds;
  -- `none` is the panic of the division by a timeframe of none.
  unfoldable pub ensure_allowed :
      ℕ → ℕ → ℕ → RequestRange → Option (Result RequestRangeError (Unit {0}))
  ensure_allowed low high tf_ms (span start none) = some (ok tt)
  ensure_allowed low high tf_ms (span start (some end)) =
      if ltb end start
      then some (err (others (codes "Start time is greater than end time")))
      else if tf_ms == 0
      then none
      else if ltb high (effective_limit start end tf_ms)
      then some (err (out_of_range (low, high) (effective_limit start end tf_ms)))
      else some (ok tt)
  ensure_allowed low high tf_ms (limit n) =
      if leb low n && leb n high then some (ok tt) else some (err (out_of_range (low, high) n))
