-- ===== src/Staking/Evidence.antt =====
-- What an EVIDENCE transaction takes from a validator, and that it takes it once
-- (`_process_evidence_tx` of core/staking.py).
use qbit_network.Common.{
  ℕ, ◌+◌, ◌-◌, ◌*◌, ◌/◌, ◌≤◌, String, Bool, true, false, List, Option, none, some, ltb,
  if◌then◌else◌, str_eq, arith, ◌≡◌, ◌⊎◌, inl, inr, refl, Bool-cases, eq_iff, leb→le, sym,
}
use qbit_network.Common.Dict.{
  lookup, put, or_else, string_eq, Distinct, lookup-put, lookup-pop, put-Distinct,
}
use qbit_network.Config.{min_stake}
use qbit_network.Finance.{Staking}
use qbit_network.Staking.{get_validator_stake, member, add_member, is_slashed}
use qbit_network.Staking.Slashing.{slash_of, slash, process_evidence_tx}
use qbit_network.Transaction.{Transaction, get_text}

-- A slash takes half of an amount rounded down, but 1 of the amount 1, and never more than there is.
pub slash_of_bounds :
    (n : ℕ) → (slash_of n ≤ n) × (n ≤ 2 * slash_of n + 1) × (2 * slash_of n ≤ n + 1)
unfolding slash_of
slash_of_bounds n = grind (arith, leb→le (n * 50 / 100) 0)

module _ (o : Option ℕ) where
  if_none :
      (b : Bool) (held : ℕ)
      → or_else (if b then none else (if b then some held else o)) 0
        ≡ (if b then 0 else or_else o 0)
  if_none true held = refl
  if_none false held = refl

  if_some :
      (b : Bool) (held : ℕ)
      → or_else (if b then some held else o) 0 ≡ (if b then held else or_else o 0)
  if_some true held = refl
  if_some false held = refl

-- After a slash the validator holds what the slash left, or nothing if that is less than the
-- minimum stake; every other validator holds what it held.
pub get_validator_stake-slash :
    (w v tx_id : String) (idx : ℕ) (s : Staking)
    → Distinct s.total_stake
    → let held = get_validator_stake v s - slash_of (get_validator_stake v s) in
      get_validator_stake w (slash v tx_id idx s)
      ≡ (if str_eq v w then (if ltb held min_stake then 0 else held) else get_validator_stake w s)
unfolding get_validator_stake slash
get_validator_stake-slash w v tx_id idx s u =
    let held = get_validator_stake v s - slash_of (get_validator_stake v s) in
    let after = put v held s.total_stake in
    elim (Bool-cases (ltb held min_stake)) [
      | inl low ↦
          rw
            (
              low,
              lookup-pop w v after (put-Distinct v held s.total_stake u),
              lookup-put w v held s.total_stake,
            )
            (if_none (lookup w s.total_stake) (str_eq v w) held)
      | inr high ↦
          rw (high, lookup-put w v held s.total_stake)
            (if_some (lookup w s.total_stake) (str_eq v w) held)
    ]

member-add_member : (x : String) (l : List String) → member x (add_member x l) ≡ true
unfolding member add_member
member-add_member x l = ground (arith, eq_iff x x)

module _ (mldsa_verify : List ℕ → List ℕ → List ℕ → Bool) where
  process_evidence_tx_cases :
      (tx : Transaction) (idx : ℕ) (s : Staking)
      → let v = get_text "validator_address" tx in
        (process_evidence_tx mldsa_verify tx idx s ≡ s)
        ⊎ (process_evidence_tx mldsa_verify tx idx s ≡ slash v tx.tx_id idx s)
  unfolding process_evidence_tx
  process_evidence_tx_cases tx idx s = ground (arith, tt)

  process_evidence_tx_known :
      (tx : Transaction) (idx : ℕ) (s : Staking)
      → member (get_text "validator_address" tx) s.processed_evidence ≡ true
      → process_evidence_tx mldsa_verify tx idx s ≡ s
  unfolding process_evidence_tx
  process_evidence_tx_known tx idx s h = ground (arith, h)

  -- A second EVIDENCE transaction against a validator that a first one slashed changes nothing.
  pub process_evidence_tx_once :
      (tx1 tx2 : Transaction) (idx1 idx2 : ℕ) (s : Staking)
      → get_text "validator_address" tx1 ≡ get_text "validator_address" tx2
      → let s1 = process_evidence_tx mldsa_verify tx1 idx1 s in
        (s1 ≡ s)
        ⊎ ((process_evidence_tx mldsa_verify tx2 idx2 s1 ≡ s1)
            × (is_slashed (get_text "validator_address" tx1) s1 ≡ true))
  unfolding slash is_slashed
  process_evidence_tx_once tx1 tx2 idx1 idx2 s h = elim (process_evidence_tx_cases tx1 idx1 s) [
    | inl same ↦ inl same
    | inr slashed ↦
        let v = get_text "validator_address" tx1 in
        let known : member (get_text "validator_address" tx2)
              (slash v tx1.tx_id idx1 s).processed_evidence
            ≡ true =
          rw (sym h) (member-add_member v s.processed_evidence) in
        rw slashed (
          inr (
            process_evidence_tx_known tx2 idx2 (slash v tx1.tx_id idx1 s) known,
            member-add_member v s.slashed_validators,
          ))
  ]
