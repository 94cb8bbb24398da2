-- ===== src/Pool/Submit.antt =====
-- submit_tx of core/tx_pool.py. A payload check that raises leaves as `invalid_payload` with the
-- exception; the pool is then unchanged, as after a rejection.
use qbit_network.Common.{
  ℕ, ◌<◌, String, Bool, true, false, not, ◌&&◌, Option, none, some, ◌≡◌, refl, ltb, leb, str_eq,
  eq_iff, length, arith, not-false, ◌⊎◌, inl, inr,
}
use qbit_network.Common.Int.{ℤ, pos, ◌+ℤ◌, ◌-ℤ◌, ltb_ℤ, eqb_ℤ, eqb_ℤ→eq}
use qbit_network.Common.Dict.{get_or, string_eq}
use qbit_network.Common.Exec.{Result, ok, err, accept, refuse_if, refuse_if_lem, Leads, leads_rules}
use qbit_network.Config.{TxType, main_chain_id, max_tx_pool_size, max_supply}
use qbit_network.Transaction.{Transaction, Primitives, verify, amount}
use qbit_network.Payload.{Refusal}
use qbit_network.Payload.Validate.{validate_payload}
use qbit_network.Fees.{tx_weight}
use qbit_network.Tokens.{Token}
use qbit_network.Staking.{member}
use qbit_network.Pool.{
  Pool, Chain, is_key_revoked, get_nonce, current_base_fee, dynamic_active, add_tx,
}
use qbit_network.Pool.Admission.{
  Rejection, Admitted, capped, check_target, check_balance, check_standing, check_tokens,
  check_mint, check_token_transfer, check_dynamic_balance, check_fixed_balance,
}

abbrev pub check_payload : Result Refusal (Unit {0}) → Admitted → Admitted
check_payload (ok x) k = k
check_payload (err r) k = err (Rejection.invalid_payload r)

-- The nonce that the next transaction of a sender must have.
abbrev pub due_nonce : String → Chain → Pool → ℤ
due_nonce sender c p = get_nonce sender c +ℤ pos (get_or sender 0 p.pool_sender_count)

module _ (prims : Primitives) (activation : ℕ) (now : ℤ) where
  unfoldable pub check_submit : Transaction → Chain → Pool → Admitted
  unfolding check_target check_balance check_standing check_tokens
  check_submit tx c p =
      let dyn = dynamic_active activation c in
      refuse_if (leb max_tx_pool_size (length p.tx_pool)) Rejection.pool_full (
        refuse_if (not (str_eq tx.chain_id main_chain_id)) Rejection.wrong_chain_id (
          refuse_if (is_key_revoked tx.sender "signing" c) Rejection.sender_revoked (
            refuse_if (not (verify prims tx)) Rejection.signature_invalid (
              check_payload (validate_payload prims tx) (
                refuse_if (member tx.tx_id c.tx_by_id) Rejection.duplicate_in_chain (
                  refuse_if (member tx.tx_id p.pool_ids) Rejection.duplicate_in_pool (
                    refuse_if (capped tx.tx_type && ltb_ℤ (pos max_supply) (amount tx))
                      Rejection.exceeds_max_supply
                      (check_target tx.tx_type tx c (
                        refuse_if
                          (dyn
                            && ltb 0 (tx_weight tx.tx_type)
                            && ltb tx.max_fee_per_weight (current_base_fee activation c))
                          Rejection.fee_below_base
                          (check_balance dyn tx c p (
                            check_standing tx.tx_type tx c (
                              check_tokens tx.tx_type tx c p (
                                refuse_if (not (eqb_ℤ tx.nonce (due_nonce tx.sender c p)))
                                  Rejection.invalid_nonce
                                  (refuse_if (ltb_ℤ (now +ℤ pos 300) tx.timestamp)
                                    Rejection.timestamp_ahead
                                    (refuse_if (ltb_ℤ tx.timestamp (now -ℤ pos 86400))
                                      Rejection.timestamp_old accept)))))))))))))))

  abbrev settle : Admitted → Transaction → Chain → Pool → Result Rejection String × Pool
  settle (ok x) tx c p = (ok tx.tx_id, add_tx activation c tx p)
  settle (err r) tx c p = (err r, p)

  unfoldable pub submit_tx : Transaction → Chain → Pool → Result Rejection String × Pool
  unfolding check_submit
  submit_tx tx c p = settle (check_submit tx c p) tx c p

check_mint-Leads :
    (o : Option Token) (tx : Transaction) (p : Pool) (k : Admitted) → Leads (check_mint o tx p k) k
unfolding check_mint
check_mint-Leads none tx p k = search leads_rules
check_mint-Leads (some reg) tx p k = search leads_rules

check_token_transfer-Leads :
    (o : Option Token) (tx : Transaction) (c : Chain) (p : Pool) (k : Admitted)
    → Leads (check_token_transfer o tx c p k) k
unfolding check_token_transfer
check_token_transfer-Leads none tx c p k = search leads_rules
check_token_transfer-Leads (some reg) tx c p k = search leads_rules

check_target-Leads :
    (t : TxType) (tx : Transaction) (c : Chain) (k : Admitted) → Leads (check_target t tx c k) k
unfolding check_target
check_target-Leads TxType.share tx c k = search leads_rules
check_target-Leads TxType.stake tx c k = search leads_rules
check_target-Leads TxType.delegate tx c k = search leads_rules
check_target-Leads TxType.unstake tx c k = search leads_rules
check_target-Leads TxType.transfer tx c k = search leads_rules
check_target-Leads TxType.register_key tx c k = search leads_rules
check_target-Leads TxType.register_validator tx c k = search leads_rules
check_target-Leads TxType.revoke_key tx c k = search leads_rules
check_target-Leads TxType.notarize tx c k = search leads_rules
check_target-Leads TxType.store tx c k = search leads_rules
check_target-Leads TxType.evidence tx c k = search leads_rules
check_target-Leads TxType.issue_token tx c k = search leads_rules
check_target-Leads TxType.mint_token tx c k = search leads_rules
check_target-Leads TxType.transfer_token tx c k = search leads_rules

check_standing-Leads :
    (t : TxType) (tx : Transaction) (c : Chain) (k : Admitted) → Leads (check_standing t tx c k) k
unfolding check_standing
check_standing-Leads TxType.share tx c k = search leads_rules
check_standing-Leads TxType.stake tx c k = search leads_rules
check_standing-Leads TxType.delegate tx c k = search leads_rules
check_standing-Leads TxType.unstake tx c k = search leads_rules
check_standing-Leads TxType.transfer tx c k = search leads_rules
check_standing-Leads TxType.register_key tx c k = search leads_rules
check_standing-Leads TxType.register_validator tx c k = search leads_rules
check_standing-Leads TxType.revoke_key tx c k = search leads_rules
check_standing-Leads TxType.notarize tx c k = search leads_rules
check_standing-Leads TxType.store tx c k = search leads_rules
check_standing-Leads TxType.evidence tx c k = search leads_rules
check_standing-Leads TxType.issue_token tx c k = search leads_rules
check_standing-Leads TxType.mint_token tx c k = search leads_rules
check_standing-Leads TxType.transfer_token tx c k = search leads_rules

check_tokens-Leads :
    (t : TxType) (tx : Transaction) (c : Chain) (p : Pool) (k : Admitted)
    → Leads (check_tokens t tx c p k) k
unfolding check_tokens
check_tokens-Leads TxType.share tx c p k = search leads_rules
check_tokens-Leads TxType.stake tx c p k = search leads_rules
check_tokens-Leads TxType.delegate tx c p k = search leads_rules
check_tokens-Leads TxType.unstake tx c p k = search leads_rules
check_tokens-Leads TxType.transfer tx c p k = search leads_rules
check_tokens-Leads TxType.register_key tx c p k = search leads_rules
check_tokens-Leads TxType.register_validator tx c p k = search leads_rules
check_tokens-Leads TxType.revoke_key tx c p k = search leads_rules
check_tokens-Leads TxType.notarize tx c p k = search leads_rules
check_tokens-Leads TxType.store tx c p k = search leads_rules
check_tokens-Leads TxType.evidence tx c p k = search leads_rules
check_tokens-Leads TxType.issue_token tx c p k = search leads_rules
check_tokens-Leads TxType.mint_token tx c p k = search (leads_rules, check_mint-Leads)
check_tokens-Leads TxType.transfer_token tx c p k = search (leads_rules, check_token_transfer-Leads)

check_balance-Leads :
    (dyn : Bool) (tx : Transaction) (c : Chain) (p : Pool) (k : Admitted)
    → Leads (check_balance dyn tx c p k) k
unfolding check_balance check_dynamic_balance check_fixed_balance
check_balance-Leads dyn tx c p k = search leads_rules depth 8

-- What submit_tx has checked of a transaction that it admits.
pub record Facts (prims : Primitives) (activation : ℕ) (tx : Transaction) (c : Chain) (p : Pool)
    : Type 0 where
  pub room : length p.tx_pool < max_tx_pool_size
  pub on_chain : tx.chain_id ≡ main_chain_id
  pub unrevoked : is_key_revoked tx.sender "signing" c ≡ false
  pub signed : verify prims tx ≡ true
  pub payload_ok : validate_payload prims tx ≡ accept
  pub unmined : member tx.tx_id c.tx_by_id ≡ false
  pub unpooled : member tx.tx_id p.pool_ids ≡ false
  pub fee_ok :
      dynamic_active activation c
        && ltb 0 (tx_weight tx.tx_type)
        && ltb tx.max_fee_per_weight (current_base_fee activation c)
      ≡ false
  pub covered : (k : Admitted) × (check_balance (dynamic_active activation c) tx c p k ≡ accept)
  pub due : tx.nonce ≡ due_nonce tx.sender c p

check_payload_lem :
    (r : Result Refusal (Unit {0})) (k : Admitted)
    → check_payload r k ≡ accept
    → (r ≡ accept) × (k ≡ accept)
check_payload_lem (ok x) k h = (refl, h)
check_payload_lem (err e) k h = cc

module _ (prims : Primitives) (activation : ℕ) (now : ℤ) (tx : Transaction) (c : Chain)
    (p : Pool) where
  pub check_submit_lem :
      check_submit prims activation now tx c p ≡ accept → Facts prims activation tx c p
  unfolding check_submit
  check_submit_lem h =
      let dyn = dynamic_active activation c in
      let due = due_nonce tx.sender c p in
      let cheap =
        dyn
        && ltb 0 (tx_weight tx.tx_type)
        && ltb tx.max_fee_per_weight (current_base_fee activation c) in
      let (room, h1) = refuse_if_lem (leb max_tx_pool_size (length p.tx_pool)) _ _ h in
      let (chain, h2) = refuse_if_lem (not (str_eq tx.chain_id main_chain_id)) _ _ h1 in
      let (unrevoked, h3) = refuse_if_lem (is_key_revoked tx.sender "signing" c) _ _ h2 in
      let (signed, h4) = refuse_if_lem (not (verify prims tx)) _ _ h3 in
      let (payload, h5) = check_payload_lem (validate_payload prims tx) _ h4 in
      let (unmined, h6) = refuse_if_lem (member tx.tx_id c.tx_by_id) _ _ h5 in
      let (unpooled, h7) = refuse_if_lem (member tx.tx_id p.pool_ids) _ _ h6 in
      let (_, h8) =
        refuse_if_lem (capped tx.tx_type && ltb_ℤ (pos max_supply) (amount tx)) _ _ h7 in
      let h9 = (check_target-Leads tx.tx_type tx c _).leads h8 in
      let (fee, h10) = refuse_if_lem cheap _ _ h9 in
      let h11 = (check_balance-Leads dyn tx c p _).leads h10 in
      let h12 = (check_standing-Leads tx.tx_type tx c _).leads h11 in
      let h13 = (check_tokens-Leads tx.tx_type tx c p _).leads h12 in
      let (same, _) = refuse_if_lem (not (eqb_ℤ tx.nonce due)) _ _ h13 in
      record {
        room = ground arith;
        on_chain =
            (eq_iff tx.chain_id main_chain_id).0
              (not-false (str_eq tx.chain_id main_chain_id) chain);
        unrevoked = unrevoked;
        signed = not-false (verify prims tx) signed;
        payload_ok = payload;
        unmined = unmined;
        unpooled = unpooled;
        fee_ok = fee;
        covered = (_, h10);
        due = eqb_ℤ→eq tx.nonce due (not-false (eqb_ℤ tx.nonce due) same);
      }

  -- The result of a submission, by the checks.
  pub submit_tx-cases :
      ((submit_tx prims activation now tx c p ≡ (ok tx.tx_id, add_tx activation c tx p))
        × Facts prims activation tx c p)
      ⊎ ((r : Rejection) × (submit_tx prims activation now tx c p ≡ (err r, p)))
  unfolding submit_tx
  submit_tx-cases = by_check (check_submit prims activation now tx c p) refl
    where
      by_check :
          (r : Admitted)
          → check_submit prims activation now tx c p ≡ r
          → ((settle prims activation now r tx c p ≡ (ok tx.tx_id, add_tx activation c tx p))
              × Facts prims activation tx c p)
            ⊎ ((e : Rejection) × (settle prims activation now r tx c p ≡ (err e, p)))
      by_check (ok x) h = inl (refl, check_submit_lem h)
      by_check (err e) h = inr (e, refl)
