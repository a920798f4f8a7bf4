-- ===== src/Methods/Windows/Checked.antt =====
-- Which windows reach an exchange.
use v_exchanges.Prelude.{ℕ, ◌≤◌, ◌≡◌, Option, none, some, Result, ok, Text, arith}
use v_exchanges.Methods.Errors.{Error}
use v_exchanges.Methods.Windows.{max_recv_window, personal_info}

abbrev pub IsAllowed : Option ℕ → Type 0
IsAllowed none = Unit
IsAllowed (some window) = window ≤ max_recv_window

module _ {TimeframeError MethodError Info : Type 0} (debug : ℕ → Text)
    (method : Option ℕ → Result (Error TimeframeError MethodError) Info) where
  -- The exchange is asked only with windows of ten minutes at most, its default and the given one;
  -- a call that answers with information has asked it with the given window.
  pub personal_info-IsAllowed :
      (recv_window default_recv_window : Option ℕ) (info : Info)
      → personal_info debug method recv_window default_recv_window ≡ ok info
      → IsAllowed recv_window × IsAllowed default_recv_window × (method recv_window ≡ ok info)
  unfolding personal_info
  personal_info-IsAllowed recv_window default_recv_window info h = ground arith
