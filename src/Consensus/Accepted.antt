-- ===== src/Consensus/Accepted.antt =====
-- What validate_block guarantees of a block that it accepts after its parent.
use qbit_network.Common.{
  ℕ, ◌+◌, ◌*◌, ◌≤◌, String, Bool, true, false, not, ◌&&◌, List, [], ◌∷◌, Option, none, some, ◌≡◌,
  refl, ltb, ◌==◌, str_eq, eq_iff, arith, length, not-false, ◌⊎◌, inl, inr, Bool-cases,
}
use qbit_network.Common.Int.{ℤ, pos, ◌+ℤ◌, ◌≤ℤ◌, ◌<ℤ◌, ltb_ℤ, leb_ℤ, leb_ℤ→lt, ltb_ℤ→le}
use qbit_network.Common.Dict.{lookup, string_eq}
use qbit_network.Common.Exec.{accept, refuse_if_lem}
use qbit_network.Config.{
  max_block_drift, max_block_weight, max_self_tx_weight_ratio, max_tx_per_block, max_block_size,
  max_tx_wire_size,
}
use qbit_network.Transaction.{Transaction}
use qbit_network.Fees.{block_total_weight}
use qbit_network.Blocks.{Block}
use qbit_network.Consensus.{is_validator, select_validator}
use qbit_network.Consensus.Validate.{
  Poa, Verdict, signing_revoked, expected_base_fee, self_weight, check_fees, is_null, check_size,
  check_header, check_signature, wrong_validator,
}

-- The validator is the selected one, if there is one.
abbrev pub IsTurn : Option String → String → Type 0
IsTurn none validator = Unit {0}
IsTurn (some e) validator = (e ≡ "") ⊎ (validator ≡ e)

-- A block that follows its parent, by the validator whose turn it is, signed with its key.
pub record HeaderFacts (block_verifies : List ℕ → Block → Bool) (seed_int : String → ℕ → ℕ)
    (c : Poa) (now : ℤ) (block parent : Block) : Type 0 where
  pub next_index : block.index ≡ parent.index + 1
  pub linked : block.prev_hash ≡ parent.block_hash
  pub after_parent : parent.timestamp <ℤ block.timestamp
  pub not_ahead : block.timestamp ≤ℤ now +ℤ pos max_block_drift
  pub known : is_validator block.validator c.validators ≡ true
  pub unrevoked : signing_revoked block.validator c ≡ false
  pub in_turn :
      IsTurn
        (select_validator seed_int block.index
          (some parent.timestamp)
          parent.block_hash
          block.timestamp
          c.active_validators
          c.validators)
        block.validator
  pub signed :
      (pk : List ℕ) × (lookup block.validator c.validators ≡ some pk)
      × (block_verifies pk block ≡ true)

check_signature_lem :
    (block_verifies : List ℕ → Block → Bool) (o : Option (List ℕ)) (block : Block) (k : Verdict)
    → check_signature block_verifies o block k ≡ accept
    → ((pk : List ℕ) × (o ≡ some pk) × (block_verifies pk block ≡ true)) × (k ≡ accept)
check_signature_lem v none block k h = cc
check_signature_lem v (some pk) block k h =
    let (signed, rest) = refuse_if_lem (not (v pk block)) _ k h in
    ((pk, refl, not-false (v pk block) signed), rest)

turn_lem :
    (o : Option String) (validator : String)
    → wrong_validator o validator ≡ false
    → IsTurn o validator
turn_lem none validator w = tt
turn_lem (some e) validator w = elim (Bool-cases (str_eq e "")) [
  | inl h ↦ inl ((eq_iff e "").0 h)
  | inr n ↦ inr ((eq_iff validator e).0 (not-false (str_eq validator e) (named n)))
]
  where
    named : str_eq e "" ≡ false → not (str_eq validator e) ≡ false
    named n = ground arith

pub check_header_lem :
    (block_verifies : List ℕ → Block → Bool) (seed_int : String → ℕ → ℕ) (c : Poa) (now : ℤ)
    (block parent : Block) (k : Verdict)
    → check_header block_verifies seed_int c now block parent k ≡ accept
    → HeaderFacts block_verifies seed_int c now block parent × (k ≡ accept)
unfolding check_header
check_header_lem v seed_int c now block parent k h =
    let wrong =
      wrong_validator
        (select_validator seed_int block.index (some parent.timestamp) parent.block_hash
          block.timestamp c.active_validators c.validators)
        block.validator in
    let (next, a) = refuse_if_lem (not (block.index == parent.index + 1)) _ _ h in
    let (link, b) = refuse_if_lem (not (str_eq block.prev_hash parent.block_hash)) _ _ a in
    let (later, d) = refuse_if_lem (leb_ℤ block.timestamp parent.timestamp) _ _ b in
    let (soon, e) = refuse_if_lem (ltb_ℤ (now +ℤ pos max_block_drift) block.timestamp) _ _ d in
    let (known, f) = refuse_if_lem (not (is_validator block.validator c.validators)) _ _ e in
    let (unrevoked, g) = refuse_if_lem (signing_revoked block.validator c) _ _ f in
    let (turn, i) = refuse_if_lem wrong _ _ g in
    let (signed, last) = check_signature_lem v (lookup block.validator c.validators) block k i in
    (
      record {
        next_index = ground arith;
        linked =
            (eq_iff block.prev_hash parent.block_hash).0
              (not-false (str_eq block.prev_hash parent.block_hash) link);
        after_parent = leb_ℤ→lt block.timestamp parent.timestamp later;
        not_ahead = ltb_ℤ→le (now +ℤ pos max_block_drift) block.timestamp soon;
        known = not-false (is_validator block.validator c.validators) known;
        unrevoked = unrevoked;
        in_turn = turn_lem _ block.validator turn;
        signed = signed;
      },
      last,
    )

-- The base fee that follows from the parent, a weight within the limit, and at most a quarter of
-- it from the validator.
abbrev pub FeeFacts : ℕ → Block → Block → Type 0
FeeFacts activation block parent =
    (block.base_fee ≡ expected_base_fee activation block.index parent)
    × (block_total_weight block.transactions ≤ max_block_weight)
    × (self_weight block.transactions block.validator * 100
        ≤ block_total_weight block.transactions * max_self_tx_weight_ratio)

-- The same, for a block under dynamic fees.
abbrev pub FeeRule : Bool → ℕ → Block → Block → Type 0
FeeRule true activation block parent = FeeFacts activation block parent
FeeRule false activation block parent = Unit {0}

self_weight_le :
    (txs : List Transaction) (validator : String)
    → self_weight txs validator ≤ block_total_weight txs
unfolding self_weight block_total_weight
self_weight_le [] validator = omega arith
self_weight_le (tx ∷ txs) validator = ground (arith, self_weight_le txs validator)

quarter :
    (own total : ℕ)
    → own ≤ total
    → ltb 0 total && ltb (total * 25) (own * 100) ≡ false
    → own * 100 ≤ total * 25
quarter own total le h = ground arith

pub check_fees_lem :
    (dyn : Bool) (activation : ℕ) (block parent : Block) (k : Verdict)
    → check_fees dyn activation block parent k ≡ accept
    → FeeRule dyn activation block parent × (k ≡ accept)
unfolding check_fees
check_fees_lem false activation block parent k h = (tt, h)
check_fees_lem true activation block parent k h =
    let total = block_total_weight block.transactions in
    let own = self_weight block.transactions block.validator in
    let fee = expected_base_fee activation block.index parent in
    let (same, a) = refuse_if_lem (not (block.base_fee == fee)) _ _ h in
    let (light, b) = refuse_if_lem (ltb max_block_weight total) _ _ a in
    let (fair, d) =
      refuse_if_lem (ltb 0 total && ltb (total * max_self_tx_weight_ratio) (own * 100)) _ k b in
    (
      (
        ground arith,
        ground arith,
        quarter own total (self_weight_le block.transactions block.validator) fair,
      ),
      d,
    )

pub check_size_lem :
    (dyn : Bool) (txs : List Transaction) (k : Verdict)
    → check_size dyn txs k ≡ accept
    → (length txs ≤ max_tx_per_block) × (k ≡ accept)
unfolding check_size
check_size_lem dyn txs k h =
    let (few, a) = refuse_if_lem (ltb max_tx_per_block (length txs)) _ _ h in
    let (_, b) = refuse_if_lem (is_null txs && not dyn) _ _ a in
    let (_, d) =
      refuse_if_lem (ltb (max_block_size * 2) (500 + length txs * max_tx_wire_size)) _ k b in
    (ground arith, d)
