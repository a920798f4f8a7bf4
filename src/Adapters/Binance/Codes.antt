-- ===== src/Adapters/Binance/Codes.antt =====
-- `BinanceErrorCode` of v_exchanges_adapters/src/exchanges/binance.rs and its `From<i32>`.
pub mod Kept
use v_exchanges.Prelude.{ℕ, suc, ℤ, pos, negsuc, List, [], ◌∷◌, if◌then◌else◌, ◌==◌}

pub data BinanceErrorCode : Type 0 where
  unknown disconnected unauthorized too_many_requests unexpected_response timeout server_busy
        invalid_message unknown_order_composition too_many_orders service_shutting_down
        unsupported_operation invalid_timestamp invalid_signature illegal_chars too_many_parameters
        mandatory_param_empty_or_malformed unknown_param unread_parameters param_empty
        param_not_required param_overflow bad_precision no_depth tif_not_required invalid_tif
        invalid_order_type invalid_side empty_new_cl_ord_id empty_org_cl_ord_id bad_interval
        bad_symbol invalid_symbol_status invalid_listen_key more_than_xx_hours
        optional_params_bad_combo invalid_parameter bad_strategy_type invalid_json
        invalid_ticker_type invalid_cancel_restrictions duplicate_symbols invalid_sbe_header
        unsupported_schema_id sbe_disabled oco_order_type_rejected oco_icebergqty_timeinforce
        deprecated_schema buy_oco_limit_must_be_below sell_oco_limit_must_be_above
        both_oco_orders_cannot_be_limit invalid_tag_number tag_not_defined_in_message
        tag_appears_more_than_once tag_out_of_order group_fields_out_of_order invalid_component
        reset_seq_num_support already_logged_in garbled_message bad_sender_compid bad_seq_num
        expected_logon too_many_messages params_bad_combo not_allowed_in_drop_copy_sessions
        drop_copy_session_not_allowed drop_copy_session_required not_allowed_in_order_entry_sessions
        not_allowed_in_market_data_sessions incorrect_num_in_group_count duplicate_entries_in_agroup
        invalid_request_id too_many_subscriptions buy_oco_stop_loss_must_be_above
        sell_oco_stop_loss_must_be_below buy_oco_take_profit_must_be_below
        sell_oco_take_profit_must_be_above new_order_rejected cancel_rejected no_such_order
        bad_api_key_fmt rejected_mbx_key no_trading_window order_archived
        order_cancel_replace_partially_failed order_cancel_replace_failed other :
      ℤ → BinanceErrorCode

-- The codes that the `match` names, by their absolute values.
abbrev pub named : List (ℕ × (ℤ → BinanceErrorCode))
named =
    (1000, unknown)
    ∷ (1001, disconnected)
    ∷ (1002, unauthorized)
    ∷ (1003, too_many_requests)
    ∷ (1006, unexpected_response)
    ∷ (1007, timeout)
    ∷ (1008, server_busy)
    ∷ (1013, invalid_message)
    ∷ (1014, unknown_order_composition)
    ∷ (1015, too_many_orders)
    ∷ (1016, service_shutting_down)
    ∷ (1020, unsupported_operation)
    ∷ (1021, invalid_timestamp)
    ∷ (1022, invalid_signature)
    ∷ (1100, illegal_chars)
    ∷ (1101, too_many_parameters)
    ∷ (1102, mandatory_param_empty_or_malformed)
    ∷ (1103, unknown_param)
    ∷ (1104, unread_parameters)
    ∷ (1105, param_empty)
    ∷ (1106, param_not_required)
    ∷ (1108, param_overflow)
    ∷ (1111, bad_precision)
    ∷ (1112, no_depth)
    ∷ (1114, tif_not_required)
    ∷ (1115, invalid_tif)
    ∷ (1116, invalid_order_type)
    ∷ (1117, invalid_side)
    ∷ (1118, empty_new_cl_ord_id)
    ∷ (1119, empty_org_cl_ord_id)
    ∷ (1120, bad_interval)
    ∷ (1121, bad_symbol)
    ∷ (1122, invalid_symbol_status)
    ∷ (1125, invalid_listen_key)
    ∷ (1127, more_than_xx_hours)
    ∷ (1128, optional_params_bad_combo)
    ∷ (1130, invalid_parameter)
    ∷ (1134, bad_strategy_type)
    ∷ (1135, invalid_json)
    ∷ (1139, invalid_ticker_type)
    ∷ (1145, invalid_cancel_restrictions)
    ∷ (1151, duplicate_symbols)
    ∷ (1152, invalid_sbe_header)
    ∷ (1153, unsupported_schema_id)
    ∷ (1155, sbe_disabled)
    ∷ (1158, oco_order_type_rejected)
    ∷ (1160, oco_icebergqty_timeinforce)
    ∷ (1161, deprecated_schema)
    ∷ (1165, buy_oco_limit_must_be_below)
    ∷ (1166, sell_oco_limit_must_be_above)
    ∷ (1168, both_oco_orders_cannot_be_limit)
    ∷ (1169, invalid_tag_number)
    ∷ (1170, tag_not_defined_in_message)
    ∷ (1171, tag_appears_more_than_once)
    ∷ (1172, tag_out_of_order)
    ∷ (1173, group_fields_out_of_order)
    ∷ (1174, invalid_component)
    ∷ (1175, reset_seq_num_support)
    ∷ (1176, already_logged_in)
    ∷ (1177, garbled_message)
    ∷ (1178, bad_sender_compid)
    ∷ (1179, bad_seq_num)
    ∷ (1180, expected_logon)
    ∷ (1181, too_many_messages)
    ∷ (1182, params_bad_combo)
    ∷ (1183, not_allowed_in_drop_copy_sessions)
    ∷ (1184, drop_copy_session_not_allowed)
    ∷ (1185, drop_copy_session_required)
    ∷ (1186, not_allowed_in_order_entry_sessions)
    ∷ (1187, not_allowed_in_market_data_sessions)
    ∷ (1188, incorrect_num_in_group_count)
    ∷ (1189, duplicate_entries_in_agroup)
    ∷ (1190, invalid_request_id)
    ∷ (1191, too_many_subscriptions)
    ∷ (1196, buy_oco_stop_loss_must_be_above)
    ∷ (1197, sell_oco_stop_loss_must_be_below)
    ∷ (1198, buy_oco_take_profit_must_be_below)
    ∷ (1199, sell_oco_take_profit_must_be_above)
    ∷ (2010, new_order_rejected)
    ∷ (2011, cancel_rejected)
    ∷ (2013, no_such_order)
    ∷ (2014, bad_api_key_fmt)
    ∷ (2015, rejected_mbx_key)
    ∷ (2016, no_trading_window)
    ∷ (2021, order_cancel_replace_partially_failed)
    ∷ (2022, order_cancel_replace_failed)
    ∷ (2026, order_archived)
    ∷ []

abbrev pub find : ℕ → List (ℕ × (ℤ → BinanceErrorCode)) → ℤ → BinanceErrorCode
find n [] code = other code
find n ((k, make) ∷ rest) code = if n == k then make code else find n rest code

unfoldable pub of_i32 : ℤ → BinanceErrorCode
of_i32 (pos n) = other (pos n)
of_i32 (negsuc n) = find (suc n) named (negsuc n)
