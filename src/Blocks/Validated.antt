-- ===== src/Blocks/Validated.antt =====
-- Block processing on transactions whose payloads validate_payload (core/transaction.py) let pass.
use qbit_network.Common.{ℕ, String, Bool, true, false, ◌≡◌, refl, ◌∙◌, List, [], ◌∷◌, ltb, All}
use qbit_network.Common.Dict.{Distinct, string_eq}
use qbit_network.Common.Exec.{Outcome, Outcome-bind, Outcome-imp, Outcome-both}
use qbit_network.Config.{TxType}
use qbit_network.Transaction.{Transaction, Primitives, get_text}
use qbit_network.Payload.{accept}
use qbit_network.Payload.Validate.{validate_payload}
use qbit_network.Payload.Sound.{IsSound, validate_payload-IsSound}
use qbit_network.Finance.{Finance, Staking, supply_invariant}
use qbit_network.Blocks.{Block, apply_tx, apply_txs, apply_staking}
use qbit_network.Blocks.Changes.{Changed}
use qbit_network.Blocks.Undo.{tx_delta, tx_sum, tx_burn}
use qbit_network.Blocks.Supply.{IsSettled, apply_tx_conserves}
use qbit_network.Blocks.Apply.{apply_tx-Changes}

-- The types whose staking amount needs nothing of the state.
abbrev pub is_plain : TxType → Bool
is_plain TxType.unstake = false
is_plain TxType.evidence = false
is_plain _ = true

IsSettled-by :
    (p : Primitives) (t : TxType) (sender recipient : String) (tx : Transaction) (s : Staking)
    → is_plain t ≡ true
    → IsSound p t sender recipient tx.payload
    → IsSettled t tx s
unfolding get_text
IsSettled-by p TxType.stake sender recipient tx s e h = h.2
IsSettled-by p TxType.delegate sender recipient tx s e h = h.2
IsSettled-by p TxType.transfer sender recipient tx s e h = tt
IsSettled-by p TxType.register_key sender recipient tx s e h = tt
IsSettled-by p TxType.register_validator sender recipient tx s e h = tt
IsSettled-by p TxType.revoke_key sender recipient tx s e h = tt
IsSettled-by p TxType.notarize sender recipient tx s e h = tt
IsSettled-by p TxType.store sender recipient tx s e h = tt
IsSettled-by p TxType.share sender recipient tx s e h = tt
IsSettled-by p TxType.unstake sender recipient tx s e h = cc
IsSettled-by p TxType.evidence sender recipient tx s e h = cc
IsSettled-by p TxType.issue_token sender recipient tx s e h = tt
IsSettled-by p TxType.mint_token sender recipient tx s e h = tt
IsSettled-by p TxType.transfer_token sender recipient tx s e h = tt

abbrev pub IsAccepted : Primitives → Transaction → Type 0
IsAccepted p tx = validate_payload p tx ≡ accept

-- With the financial layer active and no address listed twice, the loop over transactions of a
-- block after the genesis block, all of them accepted by validate_payload and none of them UNSTAKE
-- or EVIDENCE, keeps the supply invariant when it returns.
pub apply_txs_conserves :
    (p : Primitives) (dyn : Bool) (block : Block) (idx : ℕ) (txs : List Transaction) (f : Finance)
    → ltb 0 idx ≡ true
    → f.ledger.financial_active ≡ true
    → Distinct f.ledger.balances
    → All (IsAccepted p) txs
    → All (λ tx. is_plain tx.tx_type ≡ true) txs
    → Outcome
        (λ _ f'. supply_invariant f' ≡ supply_invariant f)
        (λ e f'. Unit {0})
        (apply_txs p.mldsa_verify dyn block idx txs f)
unfolding apply_txs
apply_txs_conserves p dyn block idx [] f started active u h plain = refl
apply_txs_conserves p dyn block idx (tx ∷ txs) f started active u h plain =
    let step = apply_tx p.mldsa_verify dyn block idx tx in
    let Moves : Unit {0} → Finance → Type 0 = λ _ f1.
      Changed (tx_delta dyn block tx) (tx_sum dyn block tx) (tx_burn dyn block tx) f.ledger
        f1.ledger
      × (f1.staking ≡ apply_staking p.mldsa_verify idx tx f.staking) in
    let Keeps : Unit {0} → Finance → Type 0 = λ _ f1. supply_invariant f1 ≡ supply_invariant f in
    Outcome-bind (λ a f1. Moves a f1 × Keeps a f1) Keeps (λ e f1. Unit {0}) step
      (λ _. apply_txs p.mldsa_verify dyn block idx txs) f
      (Outcome-both Moves Keeps (step f)
        (apply_tx-Changes p.mldsa_verify dyn block idx started tx f u active)
        (apply_tx_conserves p.mldsa_verify dyn block idx tx f started active u (
          IsSettled-by p tx.tx_type tx.sender tx.recipient tx f.staking plain.0
            (validate_payload-IsSound p tx h.0).2)))
      (λ _ f1 q.
        Outcome-imp (λ _ f2. supply_invariant f2 ≡ supply_invariant f1) Keeps (λ e f2. Unit {0})
          (apply_txs p.mldsa_verify dyn block idx txs f1)
          (apply_txs_conserves p dyn block idx txs f1 started (q.0.0.active ∙ active) q.0.0.distinct
            h.1 plain.1)
          (λ _ f2 e. e ∙ q.1))
