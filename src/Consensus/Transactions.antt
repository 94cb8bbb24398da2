-- ===== src/Consensus/Transactions.antt =====
-- The transactions of a block that validate_block accepts: each is good, and none comes twice.
use qbit_network.Common.{
  ℕ, ◌≤◌, String, Bool, true, false, ◌&&◌, List, [], ◌∷◌, ◌≡◌, ◌≢◌, ltb, eq_iff, arith, All, refl,
  Bool-cases, ◌⊎◌, inl, inr,
}
use qbit_network.Common.Int.{ℤ}
use qbit_network.Common.Dict.{Dict, put, string_eq}
use qbit_network.Common.Exec.{accept}
use qbit_network.Config.{main_chain_id, tx_weights}
use qbit_network.Transaction.{Transaction, Primitives, verify}
use qbit_network.Payload.Validate.{validate_payload}
use qbit_network.Staking.{member}
use qbit_network.Consensus.Validate.{Poa, in_option, signing_revoked, set_first, check_txs}
use qbit_network.Consensus.Nonces.{check_tx_lem}

-- What the block's transactions have in common.
pub record IsGood (p : Primitives) (c : Poa) (dyn : Bool) (base_fee : ℕ) (tx : Transaction)
    : Type 0 where
  pub signed : verify p tx ≡ true
  pub on_chain : tx.chain_id ≡ main_chain_id
  pub fresh : in_option tx.tx_id c.chain_tx_ids ≡ false
  pub payload_ok : validate_payload p tx ≡ accept
  pub covers_fee :
      (dyn && ltb 0 (tx_weights tx.tx_type) ≡ false) ⊎ (base_fee ≤ tx.max_fee_per_weight)
  pub unrevoked : signing_revoked tx.sender c ≡ false

-- No id is listed twice.
abbrev pub AllApart : List Transaction → Type 0
AllApart [] = Unit {0}
AllApart (tx ∷ txs) = All (λ u. u.tx_id ≢ tx.tx_id) txs × AllApart txs

pub covers :
    (dyn : Bool) (w cap fee : ℕ)
    → dyn && ltb 0 w && ltb cap fee ≡ false
    → (dyn && ltb 0 w ≡ false) ⊎ (fee ≤ cap)
covers false w cap fee h = inl refl
covers true w cap fee h = elim (Bool-cases (ltb 0 w)) [
  | inl heavy ↦ inr (enough heavy)
  | inr light ↦ inl light
]
  where
    enough : ltb 0 w ≡ true → fee ≤ cap
    enough heavy = ground arith

unseen_tail :
    (id : String) (seen : List String) (txs : List Transaction)
    → All (λ u. member u.tx_id (id ∷ seen) ≡ false) txs
    → All (λ u. u.tx_id ≢ id) txs × All (λ u. member u.tx_id seen ≡ false) txs
unfolding member
unseen_tail id seen [] h = (tt, tt)
unseen_tail id seen (u ∷ txs) h =
    let (apart, rest) = unseen_tail id seen txs h.1 in
    ((λ e. ground (arith, eq_iff id u.tx_id), apart), (ground arith, rest))

pub check_txs-IsGood :
    (p : Primitives) (c : Poa) (dyn : Bool) (base_fee : ℕ) (txs : List Transaction)
    (seen : List String) (nonces first : Dict String ℤ)
    → check_txs p c dyn base_fee txs seen nonces first ≡ accept
    → All (IsGood p c dyn base_fee) txs × AllApart txs × All (λ u. member u.tx_id seen ≡ false) txs
unfolding check_txs
check_txs-IsGood p c dyn base_fee [] seen nonces first h = (tt, tt, tt)
check_txs-IsGood p c dyn base_fee (tx ∷ txs) seen nonces first h =
    let (facts, rest) = check_tx_lem p c dyn base_fee seen nonces tx _ h in
    let (good, apart, unseen) =
      check_txs-IsGood p c dyn base_fee txs (tx.tx_id ∷ seen) (put tx.sender tx.nonce nonces)
        (set_first tx.sender tx.nonce first) rest in
    let (others, earlier) = unseen_tail tx.tx_id seen txs unseen in
    (
      (
        record {
          signed = facts.signed;
          on_chain = facts.on_chain;
          fresh = facts.fresh;
          payload_ok = facts.payload_ok;
          covers_fee =
              covers dyn (tx_weights tx.tx_type) tx.max_fee_per_weight base_fee facts.fee_ok;
          unrevoked = facts.unrevoked;
        },
        good,
      ),
      (others, apart),
      (facts.unseen, earlier),
    )
