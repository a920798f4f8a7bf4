-- ===== src/Adapters/Kucoin/Codes/Kept.antt =====
-- The two conversions of `KucoinErrorCode` undo each other.
use v_exchanges.Prelude.{◌≡◌, refl, Text, codes, text_beq-eq, arith}
use v_exchanges.Adapters.Kucoin.Codes.{KucoinErrorCode, as_str, of_string}
use v_exchanges.Adapters.Kucoin.Codes

-- The text that the service sent is kept.
as_str-of_string : (code : Text) → as_str (of_string code) ≡ code
unfolding as_str of_string
as_str-of_string code = ground (
  arith,
  text_beq-eq code (codes "200000"),
  text_beq-eq code (codes "400001"),
  text_beq-eq code (codes "400002"),
  text_beq-eq code (codes "400003"),
  text_beq-eq code (codes "400004"),
  text_beq-eq code (codes "400005"),
  text_beq-eq code (codes "400006"),
  text_beq-eq code (codes "400007"),
  text_beq-eq code (codes "200004"),
  text_beq-eq code (codes "400100"),
  text_beq-eq code (codes "500000"),
)

-- A code that stands for itself: a named one, or a text that no named one has.
abbrev pub IsProper : KucoinErrorCode → Type 0
IsProper (Codes.other s) = of_string s ≡ Codes.other s
IsProper _ = Unit

of_string-as_str : (code : KucoinErrorCode) → IsProper code → of_string (as_str code) ≡ code
unfolding as_str of_string
of_string-as_str (Codes.other s) p = p
of_string-as_str Codes.success p = refl
of_string-as_str Codes.missing_auth_header p = refl
of_string-as_str Codes.timestamp_invalid p = refl
of_string-as_str Codes.api_key_not_exist p = refl
of_string-as_str Codes.passphrase_error p = refl
of_string-as_str Codes.signature_error p = refl
of_string-as_str Codes.ip_not_whitelisted p = refl
of_string-as_str Codes.access_denied p = refl
of_string-as_str Codes.insufficient_balance p = refl
of_string-as_str Codes.parameter_error p = refl
of_string-as_str Codes.server_error p = refl

-- Every text is the text of the code it is read as, and every named code is read back from its
-- text, as is every other code whose text is no named one's.
pub codes_round :
    (code : Text) (named : KucoinErrorCode)
    → IsProper named
    → (as_str (of_string code) ≡ code) × (of_string (as_str named) ≡ named)
codes_round code named p = (as_str-of_string code, of_string-as_str named p)
