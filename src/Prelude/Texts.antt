-- ===== src/Prelude/Texts.antt =====
-- Text as the list of its code points: comparison, and splitting at a separator.
use Prim.Native.Nat.{ℕ}
use Prim.Native.Char.{code}
use Prim.Native.String.{String}
use mathlib.Core.Path.{◌≡◌, ◌∙◌, ap, refl}
use mathlib.Core.Bool.{Bool, true, false, not, ◌&&◌}
use mathlib.Core.List.{List, [], ◌∷◌, ◌++◌}
use native.Mathlib.Omega.{arith}
use v_exchanges.Prelude.Tests.{◌==◌, if◌then◌else◌}
use v_exchanges.Prelude.Maps.{Eq}

abbrev pub Text : Type 0
Text = List ℕ

abbrev pub codes : String → Text
codes String.[] = []
codes (String.◌∷◌ c s) = code c ∷ codes s

abbrev pub text_beq : Text → Text → Bool
text_beq [] [] = true
text_beq (a ∷ s) (b ∷ t) = a == b && text_beq s t
text_beq _ _ = false

pub text_beq-eq : (s t : Text) → text_beq s t ≡ true → s ≡ t
text_beq-eq [] [] h = refl
text_beq-eq (a ∷ s) (b ∷ t) h = ground (arith, text_beq-eq s t)
text_beq-eq [] (b ∷ t) h = cc
text_beq-eq (a ∷ s) [] h = cc

pub text_beq_refl : (s : Text) → text_beq s s ≡ true
text_beq_refl [] = refl
text_beq_refl (a ∷ s) = ground (arith, text_beq_refl s)

instance abbrev pub text_eq : Eq Text
text_eq = record { beq = text_beq; beq_iff = λ s t. (text_beq-eq s t, λ e. rw e (text_beq_refl t)) }

-- The first of the parts with `c` in front.
abbrev onto_first : ℕ → List Text → List Text
onto_first c [] = (c ∷ []) ∷ []
onto_first c (p ∷ ps) = (c ∷ p) ∷ ps

-- `str::split` at a character: there is always one part at least.
abbrev pub split : ℕ → Text → List Text
split sep [] = [] ∷ []
split sep (c ∷ s) = let parts = split sep s in if c == sep then [] ∷ parts else onto_first c parts

-- A text without a character.
abbrev pub lacks : ℕ → Text → Bool
lacks c [] = true
lacks c (d ∷ s) = not (d == c) && lacks c s

pub lacks-append :
    (c : ℕ) (s t : Text) → lacks c s ≡ true → lacks c t ≡ true → lacks c (s ++ t) ≡ true
lacks-append c [] t p q = q
lacks-append c (d ∷ s) t p q = ground (arith, lacks-append c s t)

pub split-lacks : (c : ℕ) (s : Text) → lacks c s ≡ true → split c s ≡ s ∷ []
split-lacks c [] h = refl
split-lacks c (d ∷ s) h = ground (arith, split-lacks c s)

pub split-append : (c : ℕ) (s t : Text) → lacks c s ≡ true → split c (s ++ c ∷ t) ≡ s ∷ split c t
split-append c [] t h = ground arith
split-append c (d ∷ s) t h = ground (arith, split-append c s t)

-- `slice::join`.
abbrev pub join_with : Text → List Text → Text
join_with sep [] = []
join_with sep (t ∷ []) = t
join_with sep (t ∷ u ∷ ts) = t ++ (sep ++ join_with sep (u ∷ ts))

-- No text contains the character.
abbrev pub all_lack : ℕ → List Text → Bool
all_lack c [] = true
all_lack c (t ∷ ts) = lacks c t && all_lack c ts

pub split-join_with :
    (c : ℕ) (t : Text) (ts : List Text)
    → all_lack c (t ∷ ts) ≡ true
    → split c (join_with (c ∷ []) (t ∷ ts)) ≡ t ∷ ts
split-join_with c t [] h = split-lacks c t (ground arith)
split-join_with c t (u ∷ ts) h =
    split-append c t (join_with (c ∷ []) (u ∷ ts)) (ground arith)
    ∙ ap (◌∷◌ t) (split-join_with c u ts (ground arith))
