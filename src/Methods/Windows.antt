-- ===== src/Methods/Windows.antt =====
-- `validate_recv_window` of v_exchanges_methods/src/core.rs, and the call of `personal_info` behind
-- it. Durations are nanoseconds; how they are shown, and what an exchange's own method answers, are
-- arguments.
pub mod Checked
use v_exchanges.Prelude.{
  ℕ, ◌*◌, ltb, if◌then◌else◌, Option, none, some, Result, ok, err, Text, codes, ◌++◌, Bool, false,
}
use v_exchanges.Methods.Errors
use v_exchanges.Methods.Errors.{Error}

-- Ten minutes.
abbrev pub max_recv_window : ℕ
max_recv_window = 600 * 1_000_000_000

abbrev pub exceeds : Option ℕ → Bool
exceeds none = false
exceeds (some window) = ltb max_recv_window window

abbrev behind : (ℕ → Text) → Option ℕ → Text
behind debug none = codes ""
behind debug (some window) =
    debug window ++ codes " exceeds maximum allowed duration of " ++ debug max_recv_window

module _ {TimeframeError MethodError : Type 0} (debug : ℕ → Text) where
  unfoldable pub validate_recv_window :
      Option ℕ → Option ℕ → Result (Error TimeframeError MethodError) (Unit {0})
  validate_recv_window recv_window default_recv_window =
      if exceeds recv_window
      then err (Errors.other (codes "recv_window of " ++ behind debug recv_window))
      else if exceeds default_recv_window
      then err (
          Errors.other
            (codes "client's default recv_window of " ++ behind debug default_recv_window))
      else ok tt

  -- `Exchange::personal_info` of any exchange.
  unfoldable pub personal_info :
      {Info : Type 0}
      → (Option ℕ → Result (Error TimeframeError MethodError) Info)
      → Option ℕ
      → Option ℕ
      → Result (Error TimeframeError MethodError) Info
  unfolding validate_recv_window
  personal_info method recv_window default_recv_window =
      elim (validate_recv_window recv_window default_recv_window) [
        | err e ↦ err e
        | ok _ ↦ method recv_window
      ]
