-- ===== src/Methods/Bybit/Listing/Last.antt =====
-- What Bybit's listing of contracts holds.
use v_exchanges.Prelude.{ℤ, ◌≡◌, refl, Option, none, some, List, Text, Eq, ℕ}
use v_exchanges.Methods.Info.{PairInfo, ExchangeInfo}
use v_exchanges.Methods.Tables.{keep_all}
use v_exchanges.Methods.Tables.Collected.{last_of, read_into-last_of}
use v_exchanges.Methods.Bybit.Listing.{InstrumentInfo, entry, exchange_info}

module _ {Pair : Type 0} ⦃e : Eq Pair⦄ (parse_pair : Text → Option Pair)
    (from_millisecond : ℤ → Option ℤ) (parse_u8 : Text → Option ℕ) where
  -- When the response and every contract that is a pair have a date, the listing is made without a
  -- panic, and a pair stands in it for the last of its contracts, and not at all if there is none.
  pub exchange_info-last :
      (time server_time : ℤ) (contracts : List InstrumentInfo) (entries : List (Pair × PairInfo))
      → from_millisecond time ≡ some server_time
      → keep_all (entry parse_pair from_millisecond parse_u8) contracts ≡ some entries
      → (info : ExchangeInfo Pair) × (exchange_info parse_pair from_millisecond parse_u8 time
            contracts
          ≡ some info)
        × (info.server_time ≡ server_time)
        × ((p : Pair) → info.pairs p ≡ last_of p entries none)
  unfolding exchange_info
  exchange_info-last time server_time contracts entries h g =
      let (m, run, at) =
        read_into-last_of (entry parse_pair from_millisecond parse_u8) contracts entries (λ _. none)
          g in
      (record { server_time = server_time; pairs = m }, rw h (rw run refl), refl, at)
