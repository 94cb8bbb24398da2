-- ===== src/Staking/Slashing.antt =====
-- `_process_evidence_tx` of qbit_network/core/staking.py. The signature check of the ML-DSA library
-- is a parameter. The method has no return value on any path: its caller sees None.
use qbit_network.Common.{
  ℕ, ◌-◌, ◌*◌, ◌/◌, max, String, Bool, false, ◌&&◌, ◌||◌, List, [], ◌∷◌, ◌++◌, Option, none, some,
  ltb, leb, ◌==◌, if◌then◌else◌, str_eq, length, take_last,
}
use qbit_network.Common.Dict.{Dict, lookup, put, pop, string_eq}
use qbit_network.Common.Hex.{codes, from_hex}
use qbit_network.Config.{slash_percentage, min_stake, max_reorg_depth}
use qbit_network.Finance.{SlashingEvent, Stakes, Staking}
use qbit_network.Staking.{get_validator_stake, member, add_member}
use qbit_network.Transaction.{Transaction, get_text}

-- Half of an amount, and at least 1 of any positive amount.
unfoldable pub slash_of : ℕ → ℕ
slash_of total =
    let slash_amount = total * slash_percentage / 100 in
    if leb slash_amount 0 && ltb 0 total then 1 else slash_amount

-- The loop over the stakers of the validator.
unfoldable pub slash_stakers : Dict String ℕ → Dict String ℕ
unfolding slash_of
slash_stakers [] = []
slash_stakers ((staker, staker_amount) ∷ d) =
    let new_amount = staker_amount - slash_of staker_amount in
    let rest = slash_stakers d in if new_amount == 0 then rest else (staker, new_amount) ∷ rest

abbrev slash_stakes : String → Option (Dict String ℕ) → Stakes → Stakes
slash_stakes vaddr none stakes = stakes
slash_stakes vaddr (some held) stakes = put vaddr (slash_stakers held) stakes

-- `_epoch_validators` after the slash: the validator goes, or is listed with its new total.
unfoldable pub slash_epoch_validators : String → ℕ → List (String × ℕ) → List (String × ℕ)
slash_epoch_validators vaddr new_total [] = []
slash_epoch_validators vaddr new_total ((addr, stake) ∷ l) =
    let rest = slash_epoch_validators vaddr new_total l in
    if str_eq addr vaddr
    then (if leb min_stake new_total then (addr, new_total) ∷ rest else rest)
    else (addr, stake) ∷ rest

-- The list of events in memory keeps the last max(MAX_REORG_DEPTH * 2, 200).
unfoldable pub prune_events : List SlashingEvent → List SlashingEvent
prune_events events =
    let max_mem_events = max (max_reorg_depth * 2) 200 in
    if ltb max_mem_events (length events) then take_last max_mem_events events else events

-- What follows "Double-sign confirmed" in `_process_evidence_tx`.
unfoldable pub slash : String → String → ℕ → Staking → Staking
unfolding slash_of slash_stakers prune_events slash_epoch_validators get_validator_stake add_member
slash vaddr tx_id block_index s =
    let total = get_validator_stake vaddr s in
    let slash_amount = slash_of total in
    let new_total = total - slash_amount in
    let stakes = slash_stakes vaddr (lookup vaddr s.stakes) s.stakes in
    let total_stake = put vaddr new_total s.total_stake in
    let removed = ltb new_total min_stake in
    record s {
      stakes = if removed then pop vaddr stakes else stakes;
      total_stake = if removed then pop vaddr total_stake else total_stake;
      consensus_validators =
          if removed then pop vaddr s.consensus_validators else s.consensus_validators;
      slashed_validators = add_member vaddr s.slashed_validators;
      processed_evidence = add_member vaddr s.processed_evidence;
      slashing_events = prune_events (
          s.slashing_events
          ++ record {
            validator = vaddr;
            evidence_tx_id = tx_id;
            amount_slashed = slash_amount;
            block_index = block_index;
          }
            ∷ []);
      epoch_validators = slash_epoch_validators vaddr new_total s.epoch_validators;
    }

module _ (mldsa_verify : List ℕ → List ℕ → List ℕ → Bool) where
  -- Both headers were signed by the key; a text that is no hex stops the check.
  unfoldable pub evidence_holds : List ℕ → Transaction → Bool
  evidence_holds vpk tx =
      let bytes = λ (field : String). from_hex (codes (get_text field tx)) in
      elim (bytes "block_a_sig") [
        | none ↦ false
        | some sig_a ↦ elim (bytes "block_b_sig") [
          | none ↦ false
          | some sig_b ↦ elim (bytes "block_a_header") [
            | none ↦ false
            | some header_a ↦ elim (bytes "block_b_header") [
              | none ↦ false
              | some header_b ↦ mldsa_verify vpk header_a sig_a && mldsa_verify vpk header_b sig_b
            ]
          ]
        ]
      ]

  -- `_process_evidence_tx`
  unfoldable pub process_evidence_tx : Transaction → ℕ → Staking → Staking
  process_evidence_tx tx block_index s =
      let vaddr = get_text "validator_address" tx in
      if str_eq vaddr "" || member vaddr s.processed_evidence
      then s
      else elim (lookup vaddr s.validator_registry) [
        | none ↦ s
        | some vpk ↦ if evidence_holds vpk tx then slash vaddr tx.tx_id block_index s else s
      ]
