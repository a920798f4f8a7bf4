-- ===== src/Adapters/Access/Covered.antt =====
-- What `sign_with` puts on a request, and what it keeps of it.
use v_exchanges.Prelude.{ℕ, ◌≡◌, Option, some, inl, inr, ok, Text, arith, Option-cases}
use v_exchanges.Adapters.Access.{Request, Libraries, stamp, sign_with}

-- Two requests that differ in the headers of access at most.
abbrev pub SameContents : Request → Request → Type 0
SameContents r r' =
    (r.method ≡ r'.method)
    × (r.url ≡ r'.url)
    × (r.path ≡ r'.path)
    × (r.query ≡ r'.query)
    × (r.body ≡ r'.body)
    × (r.content_type ≡ r'.content_type)

module _ (lib : Libraries) where
  open lib use {to_text, hmac}

  -- A request that carries the key, the time, and a signature of `contents` under the secret.
  abbrev pub Carries : Option Text → Option Text → ℕ → Text → Request → Type 0
  Carries secret key timestamp contents r =
      (s : Text) × (k : Text) × (secret ≡ some s)
      × (key ≡ some k)
      × (r.access_key ≡ some k)
      × (r.access_time ≡ some (to_text (stamp timestamp)))
      × (r.access_sign ≡ some (hmac s contents))

  pub sign_with-Carries :
      (secret key : Option Text) (timestamp : ℕ) (contents : Text) (request r : Request)
      → sign_with lib secret key timestamp contents request ≡ ok r
      → Carries secret key timestamp contents r × SameContents r request
  unfolding sign_with
  sign_with-Carries secret key timestamp contents request r h = elim (Option-cases secret) [
    | inl e ↦ ground arith
    | inr (s, e) ↦ elim (Option-cases key) [
      | inl f ↦ ground arith
      | inr (k, f) ↦ (
        (s, k, e, f, ground arith, ground arith, ground arith),
        (ground arith, ground arith, ground arith, ground arith, ground arith, ground arith),
      )
    ]
  ]
