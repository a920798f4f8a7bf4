-- ===== src/Adapters/Bybit/Codes.antt =====
-- `BybitErrorCode` of v_exchanges_adapters/src/exchanges/bybit.rs and its conversions.
use v_exchanges.Prelude.{ℤ, pos, negsuc, if◌then◌else◌, ◌==◌}

pub data BybitErrorCode : Type 0 where
  invalid_api_key error_sign permission_denied too_many_visits authentication_failed ip_banned
        unmatched_ip invalid_duplicate_request server_error route_not_found ip_rate_limit
        compliance_rules api_key_expired order_not_exist insufficient_balance other :
      ℤ → BybitErrorCode
  ok : BybitErrorCode

abbrev pub as_i32 : BybitErrorCode → ℤ
as_i32 ok = pos 0
as_i32 (invalid_api_key c) = c
as_i32 (error_sign c) = c
as_i32 (permission_denied c) = c
as_i32 (too_many_visits c) = c
as_i32 (authentication_failed c) = c
as_i32 (ip_banned c) = c
as_i32 (unmatched_ip c) = c
as_i32 (invalid_duplicate_request c) = c
as_i32 (server_error c) = c
as_i32 (route_not_found c) = c
as_i32 (ip_rate_limit c) = c
as_i32 (compliance_rules c) = c
as_i32 (api_key_expired c) = c
as_i32 (order_not_exist c) = c
as_i32 (insufficient_balance c) = c
as_i32 (other c) = c

-- `From<i32>`.
unfoldable pub of_i32 : ℤ → BybitErrorCode
of_i32 (negsuc n) = other (negsuc n)
of_i32 (pos n) =
    if n == 0
    then ok
    else if n == 10_003
    then invalid_api_key (pos n)
    else if n == 10_004
    then error_sign (pos n)
    else if n == 10_005
    then permission_denied (pos n)
    else if n == 10_006
    then too_many_visits (pos n)
    else if n == 10_007
    then authentication_failed (pos n)
    else if n == 10_009
    then ip_banned (pos n)
    else if n == 10_010
    then unmatched_ip (pos n)
    else if n == 10_014
    then invalid_duplicate_request (pos n)
    else if n == 10_016
    then server_error (pos n)
    else if n == 10_017
    then route_not_found (pos n)
    else if n == 10_018
    then ip_rate_limit (pos n)
    else if n == 10_024
    then compliance_rules (pos n)
    else if n == 33_004
    then api_key_expired (pos n)
    else if n == 110_001
    then order_not_exist (pos n)
    else if n == 110_007
    then insufficient_balance (pos n)
    else other (pos n)
