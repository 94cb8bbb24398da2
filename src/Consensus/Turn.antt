-- ===== src/Consensus/Turn.antt =====
-- The round robin of core/consensus.py.
use native.Mathlib.Nat.{mod-lt, mod-add-mod}
use qbit_network.Common.{
  ℕ, zero, suc, ◌+◌, ◌/◌, ◌%◌, ◌<◌, String, List, [], ◌∷◌, Option, none, some, ◌≡◌, refl, arith,
  inl, inr, map, length, get_elem?,
}
use qbit_network.Common.Int.{ℤ, ◌-ℤ◌, pos_part}
use qbit_network.Common.Dict.{string_eq}
use qbit_network.Common.Sorted.{insert_text, sorted}
use qbit_network.Common.Sorted.Ascending.{
  IsAscending, Holds, sorted-IsAscending, sorted-Holds, sorted-Holds_back,
}
use qbit_network.Consensus.{Validators, select_with_skip, select_poa}

abbrev pub names_of : Validators → List String
names_of validators = map (λ e. e.0) validators

-- The slot of the round robin: the index of the block, and one more for each three block intervals
-- since the parent when its time is given.
abbrev pub poa_slot : ℕ → Option ℤ → ℤ → ℕ
poa_slot block_index none now = block_index
poa_slot block_index (some parent) now = block_index + pos_part (now -ℤ parent) / 15

-- The turn of an address: with the names in ascending order, as many as before and the same ones, it
-- stands at the place of the slot, counted around.
pub record IsTurn (slot : ℕ) (names : List String) (addr : String) : Type 0 where
  pub order : List String
  pub ascending : IsAscending order
  pub as_many : length order ≡ length names
  pub kept : (s : String) → Holds s names → Holds s order
  pub no_other : (s : String) → Holds s order → Holds s names
  pub turn : get_elem? order (slot % length names) ≡ some addr

get_elem?-returns :
    (l : List String) (i : ℕ) → i < length l → (a : String) × (get_elem? l i ≡ some a) × Holds a l
get_elem?-returns [] i h = absurd (omega (arith, h))
get_elem?-returns (x ∷ l) zero h = (x, refl, inl refl)
get_elem?-returns (x ∷ l) (suc i) h =
    let (a, found, held) = get_elem?-returns l i (omega (arith, h)) in (a, found, inr held)

length-insert_text : (a : String) (l : List String) → length (insert_text a l) ≡ suc (length l)
unfolding insert_text
length-insert_text a [] = refl
length-insert_text a (b ∷ l) = ground (arith, length-insert_text a l)

length-sorted : (l : List String) → length (sorted l) ≡ length l
unfolding sorted
length-sorted [] = refl
length-sorted (a ∷ l) = omega (arith, length-insert_text a (sorted l), length-sorted l)

some_address :
    (v : String × List ℕ) (validators : Validators)
    → 0 < length (sorted (map (λ e. e.0) (v ∷ validators)))
some_address v validators = omega (arith, length-sorted (map (λ e. e.0) (v ∷ validators)))

sorted-IsTurn :
    (slot : ℕ) (v : String × List ℕ) (validators : Validators)
    → let names = names_of (v ∷ validators) in
      (addr : String) × (get_elem? (sorted names) (slot % length (sorted names)) ≡ some addr)
      × Holds addr names
      × IsTurn slot names addr
sorted-IsTurn slot v validators =
    let names = names_of (v ∷ validators) in
    let (addr, found, held) =
      get_elem?-returns (sorted names) (slot % length (sorted names))
        (mod-lt slot (some_address v validators)) in
    (
      addr,
      found,
      sorted-Holds_back addr names held,
      record {
        order = sorted names;
        ascending = sorted-IsAscending names;
        as_many = length-sorted names;
        kept = λ s h. sorted-Holds s names h;
        no_other = λ s h. sorted-Holds_back s names h;
        turn = rw (← length-sorted names) found;
      },
    )

-- While there is a validator, the round robin returns a registered one, whose turn it is: with the
-- addresses in ascending order, it is the one at the index of the block, counted around, moved on by
-- one for each three block intervals (15 seconds) since the parent when its time is given.
pub select_poa-IsTurn :
    (block_index : ℕ) (parent_timestamp : Option ℤ) (block_timestamp : ℤ) (v : String × List ℕ)
    (validators : Validators)
    → let names = names_of (v ∷ validators) in
      (addr : String) × (select_poa block_index parent_timestamp block_timestamp (v ∷ validators)
        ≡ some addr)
      × Holds addr names
      × IsTurn (poa_slot block_index parent_timestamp block_timestamp) names addr
unfolding select_poa select_with_skip
select_poa-IsTurn i none now v validators = sorted-IsTurn i v validators
select_poa-IsTurn i (some p) now v validators =
    let skips = pos_part (now -ℤ p) / 15 in
    let n = length (sorted (names_of (v ∷ validators))) in
    let (addr, found, held, turn) = sorted-IsTurn (i + skips) v validators in
    (addr, rw (mod-add-mod i n skips) found, held, turn)
