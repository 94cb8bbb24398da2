-- ===== src/Common/Dict.antt =====
-- A Python dict: an association list in insertion order. `put` overwrites in place or appends,
-- `pop` removes the key. `Distinct` says that no key is listed twice, as in every real dict.
use Prim.Native.Nat.{ℕ, ◌+◌}
use Prim.Native.String.{String}
use mathlib.Core.Path.{◌≡◌, refl}
use mathlib.Core.Logic.{◌↔◌}
use mathlib.Core.Bool.{Bool, true, false, ◌&&◌}
use mathlib.Core.Option.{Option, none, some}
use mathlib.Core.List.{List, [], ◌∷◌}
use native.Mathlib.Omega.{arith}
use text.Mathlib.Text.{◌==◌ as str_eq}
use text.Mathlib.TextEquality.{eq_iff}
use qbit_network.Common.Tests.{◌==◌, if◌then◌else◌}
use qbit_network.Common.Int.{ℤ, pos, ◌+ℤ◌, int_laws}

-- Equality of keys.
pub record Eq {ℓ} (K : Type ℓ) : Type ℓ where
  pub beq : K → K → Bool
  pub beq_iff : (a b : K) → (beq a b ≡ true) ↔ (a ≡ b)

pub beq_self {ℓ} : {K : Type ℓ} ⦃e : Eq K⦄ (k : K) → e.beq k k ≡ true
beq_self ⦃e⦄ k = (e.beq_iff k k).1 refl

instance abbrev pub string_eq : Eq String
string_eq = record { beq = str_eq; beq_iff = eq_iff }

pub nat_beq_iff : (a b : ℕ) → ((a == b) ≡ true) ↔ (a ≡ b)
nat_beq_iff a b = ground arith

instance abbrev pub nat_eq : Eq ℕ
nat_eq = record { beq = ◌==◌; beq_iff = nat_beq_iff }

abbrev pub pair_beq : String × String → String × String → Bool
pair_beq (a, b) (c, d) = str_eq a c && str_eq b d

pub pair_beq_iff : (a b : String × String) → (pair_beq a b ≡ true) ↔ (a ≡ b)
pair_beq_iff (a, b) (c, d) =
    (λ h. ground (arith, eq_iff a c, eq_iff b d), λ h. ground (arith, eq_iff a c, eq_iff b d))

instance abbrev pub pair_eq : Eq (String × String)
pair_eq = record { beq = pair_beq; beq_iff = pair_beq_iff }

abbrev pub Dict {ℓ κ} : Type ℓ → Type κ → Type (ℓ ⊔ κ)
Dict K V = List (K × V)

module _ {ℓ κ} {K : Type ℓ} {V : Type κ} ⦃e : Eq K⦄ where
  -- `d.get(k)`
  unfoldable pub lookup : K → Dict K V → Option V
  lookup k [] = none
  lookup k ((j, v) ∷ d) = if e.beq j k then some v else lookup k d

  -- `d[k] = v`
  unfoldable pub put : K → V → Dict K V → Dict K V
  put k v [] = (k, v) ∷ []
  put k v ((j, w) ∷ d) = if e.beq j k then (j, v) ∷ d else (j, w) ∷ put k v d

  -- `d.pop(k, None)`
  unfoldable pub pop : K → Dict K V → Dict K V
  pop k [] = []
  pop k ((j, w) ∷ d) = if e.beq j k then d else (j, w) ∷ pop k d

  abbrev pub Distinct : Dict K V → Type κ
  Distinct [] = Unit
  Distinct ((k, v) ∷ d) = (lookup k d ≡ none) × Distinct d

abbrev pub is_some {ℓ} : {V : Type ℓ} → Option V → Bool
is_some none = false
is_some (some v) = true

abbrev pub or_else {ℓ} : {V : Type ℓ} → Option V → V → V
or_else none u = u
or_else (some v) u = v

module _ {ℓ κ} {K : Type ℓ} {V : Type κ} ⦃e : Eq K⦄ where
  -- `d.get(k, u)`
  abbrev pub get_or : K → V → Dict K V → V
  get_or k u d = or_else (lookup k d) u

  -- `k in d`
  abbrev pub contains : K → Dict K V → Bool
  contains k d = is_some (lookup k d)

  pub lookup-put :
      (j k : K) (v : V) (d : Dict K V)
      → lookup j (put k v d) ≡ (if e.beq k j then some v else lookup j d)
  unfolding lookup put
  lookup-put j k v [] = refl
  lookup-put j k v ((i, w) ∷ d) =
      ground (arith, e.beq_iff k j, e.beq_iff i k, e.beq_iff i j, lookup-put j k v d)

  pub lookup-pop :
      (j k : K) (d : Dict K V)
      → Distinct d
      → lookup j (pop k d) ≡ (if e.beq k j then none else lookup j d)
  unfolding lookup pop
  lookup-pop j k [] h = ground arith
  lookup-pop j k ((i, w) ∷ d) h =
      ground (arith, e.beq_iff k j, e.beq_iff i k, e.beq_iff i j, lookup-pop j k d h.1)

module _ {ℓ κ} {K : Type ℓ} {V : Type κ} ⦃e : Eq K⦄ where
  pub put-Distinct : (k : K) (v : V) (d : Dict K V) → Distinct d → Distinct (put k v d)
  unfolding lookup put
  put-Distinct k v [] h = (refl, tt)
  put-Distinct k v ((i, w) ∷ d) h =
      ground (arith, e.beq_iff i k, e.beq_iff k i, lookup-put i k v d, put-Distinct k v d h.1)

  pub pop-Distinct : (k : K) (d : Dict K V) → Distinct d → Distinct (pop k d)
  unfolding lookup pop
  pop-Distinct k [] h = tt
  pop-Distinct k ((i, w) ∷ d) h = ground (arith, lookup-pop i k d h.1, pop-Distinct k d h.1)

module _ {ℓ} {K : Type ℓ} ⦃e : Eq K⦄ where
  -- `sum(d.values())`
  unfoldable pub total : Dict K ℤ → ℤ
  total [] = pos 0
  total ((k, v) ∷ d) = v +ℤ total d

  pub total-put :
      (k : K) (v : ℤ) (d : Dict K ℤ) → total (put k v d) +ℤ get_or k (pos 0) d ≡ total d +ℤ v
  unfolding total put lookup
  total-put k v [] = omega int_laws
  total-put k v ((i, w) ∷ d) = grind (int_laws, total-put k v d)

  pub total-pop : (k : K) (d : Dict K ℤ) → total (pop k d) +ℤ get_or k (pos 0) d ≡ total d
  unfolding total pop lookup
  total-pop k [] = omega int_laws
  total-pop k ((i, w) ∷ d) = grind (int_laws, total-pop k d)

module _ {ℓ} {K : Type ℓ} ⦃e : Eq K⦄ where
  -- `sum(d.values())` where every value is known to be non-negative.
  unfoldable pub total_ℕ : Dict K ℕ → ℕ
  total_ℕ [] = 0
  total_ℕ ((k, v) ∷ d) = v + total_ℕ d

  pub total_ℕ-put :
      (k : K) (v : ℕ) (d : Dict K ℕ) → total_ℕ (put k v d) + get_or k 0 d ≡ total_ℕ d + v
  unfolding total_ℕ put lookup
  total_ℕ-put k v [] = omega arith
  total_ℕ-put k v ((i, w) ∷ d) = ground (arith, total_ℕ-put k v d)

  pub total_ℕ-pop : (k : K) (d : Dict K ℕ) → total_ℕ (pop k d) + get_or k 0 d ≡ total_ℕ d
  unfolding total_ℕ pop lookup
  total_ℕ-pop k [] = omega arith
  total_ℕ-pop k ((i, w) ∷ d) = ground (arith, total_ℕ-pop k d)
