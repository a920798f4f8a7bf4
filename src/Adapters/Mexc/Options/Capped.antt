-- ===== src/Adapters/Mexc/Options/Capped.antt =====
-- The window of MEXC's requests, however the options were set.
use v_exchanges.Prelude.{ℕ, ◌≤◌, ◌≡◌, some, arith}
use v_exchanges.Adapters.Mexc.Options.{MexcOptions, MexcOption, update, max_recv_window}

abbrev pub IsCapped : {WsConfig : Type 0} → MexcOptions WsConfig → Type 0
IsCapped o = (window : ℕ) → o.recv_window ≡ some window → window ≤ max_recv_window

pub update-IsCapped :
    {WsConfig : Type 0} (item : MexcOption WsConfig) (o : MexcOptions WsConfig)
    → IsCapped o
    → IsCapped (update item o)
unfolding update
update-IsCapped item o capped window e = ground (arith, capped window)
