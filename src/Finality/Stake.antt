-- ===== src/Finality/Stake.antt =====
-- The stake that a set of validators holds together.
use qbit_network.Common.{
  ℕ, ◌+◌, ◌≤◌, String, true, false, List, [], ◌∷◌, ◌≡◌, refl, arith, if◌then◌else◌, eq_iff,
  Bool-cases, inl, inr,
}
use qbit_network.Common.Dict.{Dict, Distinct, lookup, get_or, total_ℕ, string_eq}
use qbit_network.Staking.{member, add_member}
use qbit_network.Finality.{added_stake}

-- The sum of the stakes of the listed validators, each counted once.
unfoldable pub held : Dict String ℕ → List String → ℕ
held [] validators = 0
held ((k, s) ∷ stakes) validators = (if member k validators then s else 0) + held stakes validators

abbrev pub SameMembers : List String → List String → Type 0
SameMembers a b = (x : String) → member x a ≡ member x b

pub held-SameMembers :
    (stakes : Dict String ℕ) (a b : List String) → SameMembers a b → held stakes a ≡ held stakes b
unfolding held
held-SameMembers [] a b h = refl
held-SameMembers ((k, s) ∷ stakes) a b h = ground (arith, h k, held-SameMembers stakes a b h)

pub held-le-total : (stakes : Dict String ℕ) (l : List String) → held stakes l ≤ total_ℕ stakes
unfolding held total_ℕ
held-le-total [] l = omega arith
held-le-total ((k, s) ∷ stakes) l = ground (arith, held-le-total stakes l)

held-cons_new :
    (stakes : Dict String ℕ) (v : String) (l : List String)
    → Distinct stakes
    → member v l ≡ false
    → held stakes (v ∷ l) ≡ held stakes l + get_or v 0 stakes
unfolding held member lookup
held-cons_new [] v l h new = refl
held-cons_new ((k, s) ∷ stakes) v l h new =
    ground (arith, eq_iff v k, eq_iff k v, held-cons_new stakes v l h.1 new)

held-cons_known :
    (stakes : Dict String ℕ) (v : String) (l : List String)
    → member v l ≡ true
    → held stakes (v ∷ l) ≡ held stakes l
unfolding member
held-cons_known stakes v l known =
    held-SameMembers stakes (v ∷ l) l (λ x. ground (arith, eq_iff v x))

pub held-nil : (stakes : Dict String ℕ) → held stakes [] ≡ 0
unfolding held member
held-nil [] = refl
held-nil ((k, s) ∷ stakes) = omega (arith, held-nil stakes)

-- What the loop adds to the sum.
pub held-added :
    (stakes : Dict String ℕ) (v : String) (seen : List String)
    → Distinct stakes
    → held stakes (v ∷ seen) ≡ held stakes seen + added_stake v seen stakes
unfolding added_stake
held-added stakes v seen h = elim (Bool-cases (member v seen)) [
  | inl known ↦ rw known (omega (arith, held-cons_known stakes v seen known))
  | inr new ↦ rw new (held-cons_new stakes v seen h new)
]

pub add_member-SameMembers :
    (v : String) (seen : List String) → SameMembers (add_member v seen) (v ∷ seen)
unfolding add_member member
add_member-SameMembers v seen x = ground (arith, eq_iff v x)
