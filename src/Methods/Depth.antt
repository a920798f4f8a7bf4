-- ===== src/Methods/Depth.antt =====
-- The sequence tokens of Binance's depth events, and the gap flags of the book updates
-- (v_exchanges_methods/src/binance/ws.rs). A panic is `none`; update ids are `u64`.
pub mod Coverage
use v_exchanges.Prelude.{
  ℕ, ◌+◌, ◌%◌, Bool, true, false, not, Option, none, some, List, [], ◌∷◌, ◌==◌, ◌>>=◌, Map, Eq,
  insert, u64_mod,
}
use v_exchanges.Methods.Info.{Instrument, spot_market, perp_market, margin_market}

pub record BinanceSpotSeq : Type 0 where
  pub u_first : ℕ
  pub u_final : ℕ

pub record BinancePerpSeq : Type 0 where
  pub u_first : ℕ
  pub u_final : ℕ
  pub pu : ℕ

pub data BinanceDepthSeq : Type 0 where
  spot : BinanceSpotSeq → BinanceDepthSeq
  perp : BinancePerpSeq → BinanceDepthSeq

-- The `impl`s of `Sequence`, each a comparison with the token before.
abbrev pub has_gap_spot : BinanceSpotSeq → BinanceSpotSeq → Bool
has_gap_spot self prev = not (self.u_first == (prev.u_final + 1) % u64_mod)

abbrev pub has_gap_perp : BinancePerpSeq → BinancePerpSeq → Bool
has_gap_perp self prev = not (self.pu == prev.u_final)

unfoldable pub has_gap_from_prev : BinanceDepthSeq → BinanceDepthSeq → Option Bool
has_gap_from_prev (spot a) (spot b) = some (has_gap_spot a b)
has_gap_from_prev (perp a) (perp b) = some (has_gap_perp a b)
has_gap_from_prev _ _ = none

-- The ids of a depth event.
pub record DepthEvent : Type 0 where
  pub first_update_id : ℕ
  pub final_update_id : ℕ
  pub previous_final_update_id : Option ℕ

abbrev spot_seq : DepthEvent → BinanceDepthSeq
spot_seq e = spot (record { u_first = e.first_update_id; u_final = e.final_update_id })

unfoldable pub seq_of : Instrument → DepthEvent → Option BinanceDepthSeq
seq_of perp_market e = e.previous_final_update_id >>= (λ pu.
    some (perp (record { u_first = e.first_update_id; u_final = e.final_update_id; pu = pu })))
seq_of spot_market e = some (spot_seq e)
seq_of margin_market e = some (spot_seq e)
seq_of _ e = none

-- Whether there is a gap behind the last token, if there is one.
unfoldable pub gapped : Option BinanceDepthSeq → BinanceDepthSeq → Option Bool
unfolding has_gap_from_prev
gapped none seq = some false
gapped (some prev) seq = has_gap_from_prev seq prev
