-- ===== src/Http/Bucket/Shape.antt =====
-- The bucket of a host that is given by its labels.
use v_exchanges.Prelude.{
  ℕ, ◌+◌, ◌-◌, ◌≡◌, ◌≢◌, refl, ◌∙◌, Option, none, some, List, [], ◌∷◌, ◌++◌, Text, codes, split,
  length, get_elem?, arith,
}
use v_exchanges.Http.Bucket.{exchange_label, bucket}

abbrev dot : ℕ
dot = b'.'

-- A label holds no dot.
abbrev pub IsLabel : Text → Type 0
IsLabel [] = Unit {0}
IsLabel (c ∷ s) = (c ≢ b'.') × IsLabel s

abbrev pub AllLabels : List Text → Type 0
AllLabels [] = Unit {0}
AllLabels (l ∷ ls) = IsLabel l × AllLabels ls

-- The host of the labels `l ∷ ls`.
abbrev pub host_of : Text → List Text → Text
host_of l [] = l
host_of l (m ∷ ls) = l ++ (dot ∷ host_of m ls)

split-label : (l : Text) → IsLabel l → split dot l ≡ l ∷ []
split-label [] h = refl
split-label (c ∷ l) h = ground (arith, split-label l h.1)

split-dot :
    (l rest : Text) (parts : List Text)
    → IsLabel l
    → split dot rest ≡ parts
    → split dot (l ++ (dot ∷ rest)) ≡ l ∷ parts
split-dot [] rest parts h e = ground arith
split-dot (c ∷ l) rest parts h e = ground (arith, split-dot l rest parts h.1 e)

pub split-host_of :
    (l : Text) (ls : List Text) → AllLabels (l ∷ ls) → split dot (host_of l ls) ≡ l ∷ ls
split-host_of l [] h = split-label l h.0
split-host_of l (m ∷ ls) h = split-dot l (host_of m ls) (m ∷ ls) h.0 (split-host_of m ls h.1)

get_elem?-last_but_one :
    (pre : List Text) (x y : Text)
    → (length (pre ++ x ∷ y ∷ []) ≡ length pre + 2)
      × (get_elem? (pre ++ x ∷ y ∷ []) (length pre) ≡ some x)
get_elem?-last_but_one [] x y = (omega arith, refl)
get_elem?-last_but_one (p ∷ pre) x y =
    let (n, e) = get_elem?-last_but_one pre x y in (omega arith, e)

exchange_label-many :
    (l : Text) (ls pre : List Text) (sld tld : Text)
    → AllLabels (l ∷ ls)
    → l ∷ ls ≡ pre ++ sld ∷ tld ∷ []
    → exchange_label (host_of l ls) ≡ some sld
unfolding exchange_label
exchange_label-many l ls pre sld tld h e =
    let (n, x) = get_elem?-last_but_one pre sld tld in
    let parts : split dot (host_of l ls) ≡ pre ++ sld ∷ tld ∷ [] = split-host_of l ls h ∙ e in
    let m : length pre + 2 - 2 ≡ length pre = omega arith in
    rw parts (rw n (rw m (ground (arith, x))))

exchange_label-one : (l : Text) → IsLabel l → exchange_label l ≡ none
unfolding exchange_label
exchange_label-one l h = rw (split-label l h)

-- A host of two labels or more goes by its last label but one, and by the key name where the handler
-- has one.
pub bucket-many :
    (l : Text) (ls pre : List Text) (sld tld key : Text)
    → AllLabels (l ∷ ls)
    → l ∷ ls ≡ pre ++ sld ∷ tld ∷ []
    → (bucket (some (host_of l ls)) (some key) ≡ codes "ip." ++ (sld ++ (codes "." ++ key)))
      × (bucket (some (host_of l ls)) none ≡ codes "ip." ++ sld)
unfolding bucket
bucket-many l ls pre sld tld key h e =
    let found = exchange_label-many l ls pre sld tld h e in
    (rw (found, bucket) refl, rw (found, bucket) refl)

-- A host of one label goes by neither its label nor the key name: all such hosts, with whatever
-- credentials, share the bucket of a call that has no host.
pub bucket-one :
    (l : Text) (key : Option Text)
    → IsLabel l
    → (bucket (some l) key ≡ codes "ip") × (bucket (some l) key ≡ bucket none none)
unfolding bucket
bucket-one l key h =
    let alone = exchange_label-one l h in (rw (alone, bucket) refl, rw (alone, bucket) refl)
