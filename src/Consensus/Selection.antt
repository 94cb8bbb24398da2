-- ===== src/Consensus/Selection.antt =====
-- The choice of the validator (core/consensus.py): by stake, and in turn.
use native.Mathlib.Nat.{mod-lt}
use qbit_network.Common.{
  ℕ, ◌+◌, ◌%◌, ◌≤◌, ◌<◌, String, List, [], ◌∷◌, ◌++◌, some, ltb, ◌≡◌, refl, ap, arith, inl, inr,
  Bool-cases,
}
use qbit_network.Common.Dict.{string_eq}
use qbit_network.Consensus.{find_point, total_of, select_dpos}

-- The point falls into the interval of `addr` when the stakes are laid end to end from `c`.
pub record HasPoint (point c : ℕ) (active : List (String × ℕ)) (addr : String) : Type 0 where
  pub before : List (String × ℕ)
  pub after : List (String × ℕ)
  pub stake : ℕ
  pub listed : active ≡ before ++ (addr, stake) ∷ after
  pub lower : c + total_of before ≤ point
  pub upper : point < c + total_of before + stake

find_point_lem :
    (point c : ℕ) (active : List (String × ℕ))
    → c ≤ point
    → point < c + total_of active
    → (addr : String) × (find_point point c active ≡ some addr) × HasPoint point c active addr
unfolding find_point
find_point_lem point c [] lo hi = absurd (omega (arith, lo, hi))
find_point_lem point c ((a, s) ∷ active) lo hi = elim (Bool-cases (ltb point (c + s))) [
  | inl here ↦ (
    a,
    rw here refl,
    record {
      before = [];
      after = active;
      stake = s;
      listed = refl;
      lower = omega (arith, lo);
      upper = ground (arith, here);
    },
  )
  | inr later ↦
      let (addr, found, r) =
        find_point_lem point (c + s) active (ground (arith, later)) (omega (arith, hi)) in
      (
        addr,
        rw later found,
        record {
          before = (a, s) ∷ r.before;
          after = r.after;
          stake = r.stake;
          listed = ap (λ l. (a, s) ∷ l) r.listed;
          lower = omega (arith, r.lower);
          upper = omega (arith, r.upper);
        },
      )
]

-- With a positive total stake, the choice returns the validator into whose interval the seed falls
-- when the stakes are laid end to end: each validator has as many points as it has stake.
pub select_dpos-HasPoint :
    (seed_int : String → ℕ → ℕ) (block_index : ℕ) (parent_hash : String)
    (active : List (String × ℕ))
    → 0 < total_of active
    → (addr : String) × (select_dpos seed_int block_index parent_hash active ≡ some addr)
      × HasPoint (seed_int parent_hash block_index % total_of active) 0 active addr
unfolding select_dpos
select_dpos-HasPoint seed_int i h active positive =
    let point = seed_int h i % total_of active in
    let r =
      find_point_lem point 0 active (omega arith) (omega (arith, mod-lt (seed_int h i) positive)) in
    (r.0, rw (r.1, select_dpos) refl, r.2)
