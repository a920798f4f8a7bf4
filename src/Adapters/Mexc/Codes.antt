-- ===== src/Adapters/Mexc/Codes.antt =====
-- `MexcErrorCode` of v_exchanges_adapters/src/exchanges/mexc.rs and its conversions.
use v_exchanges.Prelude.{ℤ, pos, negsuc, if◌then◌else◌, ◌==◌, ◌||◌}

pub data MexcErrorCode : Type 0 where
  unauthorized invalid_api_key invalid_signature api_key_expired signature_not_valid
        too_many_requests bad_symbol permission_denied other :
      ℤ → MexcErrorCode

abbrev pub as_i32 : MexcErrorCode → ℤ
as_i32 (unauthorized c) = c
as_i32 (invalid_api_key c) = c
as_i32 (invalid_signature c) = c
as_i32 (api_key_expired c) = c
as_i32 (signature_not_valid c) = c
as_i32 (too_many_requests c) = c
as_i32 (bad_symbol c) = c
as_i32 (permission_denied c) = c
as_i32 (other c) = c

-- `From<i32>`.
unfoldable pub of_i32 : ℤ → MexcErrorCode
of_i32 (negsuc n) = other (negsuc n)
of_i32 (pos n) =
    if n == 602
    then unauthorized (pos n)
    else if n == 10_001
    then invalid_api_key (pos n)
    else if n == 140_002
    then invalid_signature (pos n)
    else if (n == 402) || (n == 700_001)
    then api_key_expired (pos n)
    else if n == 700_002
    then signature_not_valid (pos n)
    else if (n == 700_007) || (n == 700_013)
    then invalid_signature (pos n)
    else if n == 70_011
    then permission_denied (pos n)
    else if n == 10_007
    then bad_symbol (pos n)
    else other (pos n)
