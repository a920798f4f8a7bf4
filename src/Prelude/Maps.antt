-- ===== src/Prelude/Maps.antt =====
-- Keys that can be compared, and maps over them as functions.
use mathlib.Core.Path.{◌≡◌, refl}
use mathlib.Core.Logic.{◌↔◌, ◌≢◌}
use native.Mathlib.Omega.{arith}
use mathlib.Core.Bool.{Bool, true, false}
use mathlib.Core.Option.{Option, none, some}
use Prim.Native.Nat.{ℕ}
use Prim.Native.String.{String}
use text.Mathlib.Text.{◌==◌ as str_eq}
use text.Mathlib.TextEquality.{eq_iff}
use v_exchanges.Prelude.Tests.{◌==◌ as nat_beq, ==_iff, if◌then◌else◌}

pub record Eq (K : Type 0) : Type 0 where
  pub beq : K → K → Bool
  pub beq_iff : (a b : K) → (beq a b ≡ true) ↔ (a ≡ b)

instance abbrev pub nat_eq : Eq ℕ
nat_eq = record { beq = nat_beq; beq_iff = ==_iff }

instance abbrev pub string_eq : Eq String
string_eq = record { beq = str_eq; beq_iff = eq_iff }

-- A hash map, read through its lookups.
abbrev pub Map : Type 0 → Type 0 → Type 0
Map K V = K → Option V

pub beq-ne : {K : Type 0} ⦃e : Eq K⦄ (a b : K) → a ≢ b → e.beq b a ≡ false
beq-ne ⦃e⦄ a b h = ground (arith, e.beq_iff b a)

module _ {K V : Type 0} ⦃e : Eq K⦄ where
  abbrev pub insert : K → V → Map K V → Map K V
  insert k v m j = if e.beq k j then some v else m j

  abbrev pub remove : K → Map K V → Map K V
  remove k m j = if e.beq k j then none else m j

  pub insert_self : (k : K) (v : V) (m : Map K V) → insert k v m k ≡ some v
  insert_self k v m = rw ((e.beq_iff k k).1 refl)

  pub insert_other : (k j : K) (v : V) (m : Map K V) → j ≢ k → insert k v m j ≡ m j
  insert_other k j v m h = ground (arith, e.beq_iff k j)

  pub remove_self : (k : K) (m : Map K V) → remove k m k ≡ none
  remove_self k m = rw ((e.beq_iff k k).1 refl)

  pub remove_other : (k j : K) (m : Map K V) → j ≢ k → remove k m j ≡ m j
  remove_other k j m h = ground (arith, e.beq_iff k j)
