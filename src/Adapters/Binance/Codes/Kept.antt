-- ===== src/Adapters/Binance/Codes/Kept.antt =====
-- What `From<i32>` keeps of a code, and how Binance's codes are told apart as errors of the API.
use v_exchanges.Prelude.{
  ℤ, pos, negsuc, arith, ℕ, suc, ◌≡◌, inl, inr, refl, List, [], ◌∷◌, ◌==◌, Bool-cases,
}
use v_exchanges.Adapters.Binance.Codes.{BinanceErrorCode, named, find, of_i32}
use v_exchanges.Adapters.Binance.Codes

-- The code that a value carries.
abbrev pub code_of : BinanceErrorCode → ℤ
code_of (Codes.unknown c) = c
code_of (Codes.disconnected c) = c
code_of (Codes.unauthorized c) = c
code_of (Codes.too_many_requests c) = c
code_of (Codes.unexpected_response c) = c
code_of (Codes.timeout c) = c
code_of (Codes.server_busy c) = c
code_of (Codes.invalid_message c) = c
code_of (Codes.unknown_order_composition c) = c
code_of (Codes.too_many_orders c) = c
code_of (Codes.service_shutting_down c) = c
code_of (Codes.unsupported_operation c) = c
code_of (Codes.invalid_timestamp c) = c
code_of (Codes.invalid_signature c) = c
code_of (Codes.illegal_chars c) = c
code_of (Codes.too_many_parameters c) = c
code_of (Codes.mandatory_param_empty_or_malformed c) = c
code_of (Codes.unknown_param c) = c
code_of (Codes.unread_parameters c) = c
code_of (Codes.param_empty c) = c
code_of (Codes.param_not_required c) = c
code_of (Codes.param_overflow c) = c
code_of (Codes.bad_precision c) = c
code_of (Codes.no_depth c) = c
code_of (Codes.tif_not_required c) = c
code_of (Codes.invalid_tif c) = c
code_of (Codes.invalid_order_type c) = c
code_of (Codes.invalid_side c) = c
code_of (Codes.empty_new_cl_ord_id c) = c
code_of (Codes.empty_org_cl_ord_id c) = c
code_of (Codes.bad_interval c) = c
code_of (Codes.bad_symbol c) = c
code_of (Codes.invalid_symbol_status c) = c
code_of (Codes.invalid_listen_key c) = c
code_of (Codes.more_than_xx_hours c) = c
code_of (Codes.optional_params_bad_combo c) = c
code_of (Codes.invalid_parameter c) = c
code_of (Codes.bad_strategy_type c) = c
code_of (Codes.invalid_json c) = c
code_of (Codes.invalid_ticker_type c) = c
code_of (Codes.invalid_cancel_restrictions c) = c
code_of (Codes.duplicate_symbols c) = c
code_of (Codes.invalid_sbe_header c) = c
code_of (Codes.unsupported_schema_id c) = c
code_of (Codes.sbe_disabled c) = c
code_of (Codes.oco_order_type_rejected c) = c
code_of (Codes.oco_icebergqty_timeinforce c) = c
code_of (Codes.deprecated_schema c) = c
code_of (Codes.buy_oco_limit_must_be_below c) = c
code_of (Codes.sell_oco_limit_must_be_above c) = c
code_of (Codes.both_oco_orders_cannot_be_limit c) = c
code_of (Codes.invalid_tag_number c) = c
code_of (Codes.tag_not_defined_in_message c) = c
code_of (Codes.tag_appears_more_than_once c) = c
code_of (Codes.tag_out_of_order c) = c
code_of (Codes.group_fields_out_of_order c) = c
code_of (Codes.invalid_component c) = c
code_of (Codes.reset_seq_num_support c) = c
code_of (Codes.already_logged_in c) = c
code_of (Codes.garbled_message c) = c
code_of (Codes.bad_sender_compid c) = c
code_of (Codes.bad_seq_num c) = c
code_of (Codes.expected_logon c) = c
code_of (Codes.too_many_messages c) = c
code_of (Codes.params_bad_combo c) = c
code_of (Codes.not_allowed_in_drop_copy_sessions c) = c
code_of (Codes.drop_copy_session_not_allowed c) = c
code_of (Codes.drop_copy_session_required c) = c
code_of (Codes.not_allowed_in_order_entry_sessions c) = c
code_of (Codes.not_allowed_in_market_data_sessions c) = c
code_of (Codes.incorrect_num_in_group_count c) = c
code_of (Codes.duplicate_entries_in_agroup c) = c
code_of (Codes.invalid_request_id c) = c
code_of (Codes.too_many_subscriptions c) = c
code_of (Codes.buy_oco_stop_loss_must_be_above c) = c
code_of (Codes.sell_oco_stop_loss_must_be_below c) = c
code_of (Codes.buy_oco_take_profit_must_be_below c) = c
code_of (Codes.sell_oco_take_profit_must_be_above c) = c
code_of (Codes.new_order_rejected c) = c
code_of (Codes.cancel_rejected c) = c
code_of (Codes.no_such_order c) = c
code_of (Codes.bad_api_key_fmt c) = c
code_of (Codes.rejected_mbx_key c) = c
code_of (Codes.no_trading_window c) = c
code_of (Codes.order_archived c) = c
code_of (Codes.order_cancel_replace_partially_failed c) = c
code_of (Codes.order_cancel_replace_failed c) = c
code_of (Codes.other c) = c

-- Every entry of a list of codes has a property of its number and its constructor.
abbrev pub AllNamed :
    (ℕ → (ℤ → BinanceErrorCode) → Type 0) → List (ℕ × (ℤ → BinanceErrorCode)) → Type 0
AllNamed P [] = Unit
AllNamed P ((k, make) ∷ rest) = P k make × AllNamed P rest

find-code_of :
    (n : ℕ) (table : List (ℕ × (ℤ → BinanceErrorCode))) (code : ℤ)
    → AllNamed (λ _ make. code_of (make code) ≡ code) table
    → code_of (find n table code) ≡ code
find-code_of n [] code h = refl
find-code_of n ((k, make) ∷ rest) code (p, h) = elim (Bool-cases (n == k)) [
  | inl e ↦ rw e p
  | inr e ↦ rw e (find-code_of n rest code h)
]

-- The code that the service sent is kept, whichever variant it becomes.
pub of_i32-keeps : (code : ℤ) → code_of (of_i32 code) ≡ code
unfolding of_i32
of_i32-keeps (pos n) = refl
of_i32-keeps (negsuc n) = find-code_of (suc n) named (negsuc n) (ground arith)
