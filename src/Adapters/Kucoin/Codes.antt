-- ===== src/Adapters/Kucoin/Codes.antt =====
-- `KucoinErrorCode` of v_exchanges_adapters/src/exchanges/kucoin.rs and its conversions.
pub mod Kept
use v_exchanges.Prelude.{Text, codes, text_beq, if◌then◌else◌}

pub data KucoinErrorCode : Type 0 where
  missing_auth_header timestamp_invalid api_key_not_exist passphrase_error signature_error
        ip_not_whitelisted access_denied insufficient_balance parameter_error server_error success :
      KucoinErrorCode
  other : Text → KucoinErrorCode

unfoldable pub as_str : KucoinErrorCode → Text
as_str success = codes "200000"
as_str missing_auth_header = codes "400001"
as_str timestamp_invalid = codes "400002"
as_str api_key_not_exist = codes "400003"
as_str passphrase_error = codes "400004"
as_str signature_error = codes "400005"
as_str ip_not_whitelisted = codes "400006"
as_str access_denied = codes "400007"
as_str insufficient_balance = codes "200004"
as_str parameter_error = codes "400100"
as_str server_error = codes "500000"
as_str (other s) = s

-- `From<String>`.
unfoldable pub of_string : Text → KucoinErrorCode
of_string code =
    if text_beq code (codes "200000")
    then success
    else if text_beq code (codes "400001")
    then missing_auth_header
    else if text_beq code (codes "400002")
    then timestamp_invalid
    else if text_beq code (codes "400003")
    then api_key_not_exist
    else if text_beq code (codes "400004")
    then passphrase_error
    else if text_beq code (codes "400005")
    then signature_error
    else if text_beq code (codes "400006")
    then ip_not_whitelisted
    else if text_beq code (codes "400007")
    then access_denied
    else if text_beq code (codes "200004")
    then insufficient_balance
    else if text_beq code (codes "400100")
    then parameter_error
    else if text_beq code (codes "500000")
    then server_error
    else other code
