-- ===== src/Adapters/Binance/Response/Answers.antt =====
-- How Binance's error responses are classified: bans, blocks and authentication errors.
use v_exchanges.Prelude.{
  ℤ, pos, negsuc, ℕ, suc, ◌≡◌, sym, ◌⊎◌, inl, inr, refl, List, [], ◌∷◌, if◌then◌else◌, ◌==◌, arith,
  Bool, true, false, Bool-cases, Text, codes, ◌||◌, ◌++◌, Option, some, err, ==_iff, ◌+◌, ◌*◌,
  Result-cases,
}
use v_exchanges.Http.Errors.{IpError, AuthError, ApiError, HandleError}
use v_exchanges.Adapters.Binance.Codes
use v_exchanges.Adapters.Binance.Codes.{BinanceErrorCode, named, find, of_i32}
use v_exchanges.Adapters.Binance.Codes.Kept.{AllNamed}
use v_exchanges.Adapters.Binance.Response.{Decoder, api_error, retry_after_sec, handle_response}

abbrev Table : Type 0
Table = List (ℕ × (ℤ → BinanceErrorCode))

abbrev names : ℕ → Table → Bool
names n [] = false
names n ((k, _) ∷ rest) = (n == k) || names n rest

abbrev IsAbsent : ℕ → Table → Type 0
IsAbsent n [] = Unit
IsAbsent n ((k, _) ∷ rest) = ((n == k) ≡ false) × IsAbsent n rest

absent_differs :
    (n k : ℕ) (table : Table) → IsAbsent n table → names k table ≡ true → (n == k) ≡ false
absent_differs n k [] h p = cc
absent_differs n k ((j, _) ∷ rest) (q, h) p = ground (arith, absent_differs n k rest h)

at_key :
    (Q : ℕ → BinanceErrorCode → Type 0) (n k : ℕ) (made : BinanceErrorCode)
    → n ≡ k
    → Q k made
    → Q n made
at_key Q n k made p q = rw p q

-- A property of every entry, and of the fallback for a number that no entry has.
find-rule :
    (Q : ℕ → BinanceErrorCode → Type 0) (n : ℕ) (table : Table) (code : ℤ)
    → AllNamed (λ k make. Q k (make code)) table
    → (IsAbsent n table → Q n (Codes.other code))
    → Q n (find n table code)
find-rule Q n [] code h f = f tt
find-rule Q n ((k, make) ∷ rest) code (q, h) f = elim (Bool-cases (n == k)) [
  | inl e ↦ rw e (at_key Q n k (make code) ((==_iff n k).0 e) q)
  | inr e ↦ rw e (find-rule Q n rest code h (λ a. f (e, a)))
]

-- The five codes that Binance sends for a bad key or signature, by their absolute values.
abbrev pub expected : ℕ → Text → ApiError
expected n msg =
    if (n == 2_015) || (n == 1_125)
    then ApiError.auth (AuthError.key_expired msg)
    else if (n == 1_002) || ((n == 1_022) || (n == 2_014))
    then ApiError.auth (AuthError.unauthorized msg)
    else ApiError.other (codes "Binance API error: " ++ msg)

expected-absent :
    (n : ℕ) (msg : Text)
    → IsAbsent n named
    → expected n msg ≡ ApiError.other (codes "Binance API error: " ++ msg)
expected-absent n msg a =
    rw
      (
        absent_differs n 2_015 named a refl,
        absent_differs n 1_125 named a refl,
        absent_differs n 1_002 named a refl,
        absent_differs n 1_022 named a refl,
        absent_differs n 2_014 named a refl,
      )
      refl

-- An error is an expired key for the codes -2015 and -1125, an unauthorized one for -1002, -1022 and
-- -2014, and another error for every other code, known to the table or not.
pub api_error-of_i32 :
    (n : ℕ) (msg : Text)
    → (api_error (of_i32 (negsuc n)) msg ≡ expected (suc n) msg)
      × (api_error (of_i32 (pos n)) msg ≡ ApiError.other (codes "Binance API error: " ++ msg))
unfolding api_error of_i32
api_error-of_i32 n msg = (
  find-rule (λ k made. api_error made msg ≡ expected k msg) (suc n) named (negsuc n) (ground arith)
      (λ a. sym (expected-absent (suc n) msg a)),
  refl,
)

abbrev is_ip : ApiError → Bool
is_ip (ApiError.ip _) = true
is_ip _ = false

api_error-is_ip : (code : BinanceErrorCode) (msg : Text) → is_ip (api_error code msg) ≡ false
unfolding api_error
api_error-is_ip code msg = ground arith

-- A response is an error of the address only as a block, with the status 403 or 451, or as a ban
-- until its "Retry-After" has passed, with the status 429 or 418 and a header that can be read.
pub handle_response-ip :
    {Body S : Type 0} (decoder : Decoder Body S) (parse_u32 : Text → Option ℕ) (now status : ℕ)
    (retry_after : Option (Option Text)) (body : Body) (e : IpError)
    → handle_response decoder parse_u32 now status retry_after body
      ≡ err (HandleError.api (ApiError.ip e))
    → ((status ≡ 403) × ((msg : Text) × (e ≡ IpError.waf msg)))
      ⊎ (((status ≡ 451) × ((msg : Text) × (e ≡ IpError.geo_blocked msg)))
          ⊎ (((status ≡ 429) ⊎ (status ≡ 418))
              × ((s : ℕ) × ((retry_after_sec parse_u32 retry_after ≡ some s)
                    × (e ≡ IpError.timeout (some (now + s * 1_000_000_000)))))))
unfolding handle_response
handle_response-ip decoder parse_u32 now status retry_after body e h =
    elim (Result-cases (decoder.error_from_json body)) [
      | inl (found, p) ↦ ground (arith, p, api_error-is_ip found.code found.msg)
      | inr (m, p) ↦ ground arith
    ]
