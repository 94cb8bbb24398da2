-- ===== src/Consensus/Complete.antt =====
-- The transactions that the loop of validate_block accepts: the conditions that it checks are
-- enough.
use mathlib.Core.Path.{subst}
use qbit_network.Common.{
  ℕ, ◌≤◌, String, Bool, true, false, not, ◌&&◌, List, [], ◌∷◌, Option, none, some, ◌≡◌, ◌≢◌, refl,
  sym, ap, ◌∙◌, ltb, str_eq, eq_iff, arith, All, if◌then◌else◌, Bool-cases, ◌⊎◌, inl, inr,
}
use qbit_network.Common.Int.{ℤ, pos, ◌+ℤ◌, eqb_ℤ, le→eqb_ℤ}
use qbit_network.Common.Dict.{
  Dict, lookup, put, contains, is_some, or_else, lookup-put, beq_self, string_eq,
}
use qbit_network.Common.Exec.{accept, refuse_if-false}
use qbit_network.Config.{main_chain_id, tx_weights}
use qbit_network.Transaction.{Transaction, Primitives, verify}
use qbit_network.Staking.{member}
use qbit_network.Consensus.Validate.{
  Poa, Verdict, in_option, signing_revoked, has_gap, set_first, next_nonce, check_starts,
  check_nonces, check_tx, check_txs,
}
use qbit_network.Consensus.Nonces.{
  nonces_of, IsRun, expected, StartsAt, lookup-set_first, lookup-set_first_other,
}
use qbit_network.Consensus.Transactions.{IsGood, AllApart}

eqb_self : (a : ℤ) → not (eqb_ℤ a a) ≡ false
eqb_self a = rw (le→eqb_ℤ a a (omega arith, omega arith)) refl

-- A sender that has an entry started where the chain expects.
check_starts_passes :
    (chain first nonces : Dict String ℤ)
    → ((s : String) → contains s nonces ≡ true → lookup s first ≡ some (next_nonce s chain))
    → check_starts chain first nonces ≡ accept
unfolding check_starts lookup
check_starts_passes chain first [] h = refl
check_starts_passes chain first ((sender, last) ∷ nonces) h = rw (h sender here) (
    refuse_if-false (not (eqb_ℤ (next_nonce sender chain) (next_nonce sender chain))) _ _
      (eqb_self (next_nonce sender chain))
      (check_starts_passes chain first nonces (λ s e. h s (further s e))))
  where
    here : contains sender ((sender, last) ∷ nonces) ≡ true
    here = rw (beq_self sender) refl

    further : (s : String) → contains s nonces ≡ true → contains s ((sender, last) ∷ nonces) ≡ true
    further s e = ground arith

gap_passes : (o : Option ℤ) (n start : ℤ) → n ≡ expected o start → has_gap o n ≡ false
gap_passes none n start e = refl
gap_passes (some prev) n start e =
    subst (λ x. not (eqb_ℤ x (prev +ℤ pos 1)) ≡ false) (sym e) (eqb_self (prev +ℤ pos 1))

fee_passes :
    (dyn : Bool) (w cap fee : ℕ)
    → (dyn && ltb 0 w ≡ false) ⊎ (fee ≤ cap)
    → dyn && ltb 0 w && ltb cap fee ≡ false
fee_passes dyn w cap fee (inl light) = ground arith
fee_passes dyn w cap fee (inr enough) = ground arith

own_StartsAt :
    (o f : Option ℤ) (n start : ℤ)
    → n ≡ expected o start
    → is_some f ≡ is_some o
    → StartsAt f start
    → StartsAt (some (or_else f n)) start
own_StartsAt none none n start e same st = e
own_StartsAt (some prev) none n start e same st = cc
own_StartsAt o (some f) n start e same st = st

unseen_passes :
    (id : String) (seen : List String) (txs : List Transaction)
    → All (λ u. u.tx_id ≢ id) txs
    → All (λ u. member u.tx_id seen ≡ false) txs
    → All (λ u. member u.tx_id (id ∷ seen) ≡ false) txs
unfolding member
unseen_passes id seen [] a b = tt
unseen_passes id seen (u ∷ txs) a b = (
  elim (Bool-cases (str_eq id u.tx_id)) [
    | inl e ↦ absurd (a.0 (sym ((eq_iff id u.tx_id).0 e)))
    | inr n ↦ rw (n, b.0) refl
  ],
  unseen_passes id seen txs a.1 b.1,
)

-- The state of the loop: each sender's transactions go on, from where the chain expects.
pub record Goes (chain nonces first : Dict String ℤ) (s : String) (txs : List Transaction)
    : Type 0 where
  pub run : IsRun (expected (lookup s nonces) (next_nonce s chain)) (nonces_of s txs)
  pub starts : StartsAt (lookup s first) (next_nonce s chain)
  pub both : is_some (lookup s first) ≡ is_some (lookup s nonces)

starts_some :
    (f : Option ℤ) (o : Option ℤ) (start : ℤ)
    → StartsAt f start
    → is_some f ≡ is_some o
    → is_some o ≡ true
    → f ≡ some start
starts_some none o start st same there = cc
starts_some (some n) o start st same there = ap some st

module _ (chain nonces first : Dict String ℤ) (tx : Transaction) (txs : List Transaction) where
  own_nonce :
      Goes chain nonces first tx.sender (tx ∷ txs)
      → (tx.nonce ≡ expected (lookup tx.sender nonces) (next_nonce tx.sender chain))
        × IsRun (tx.nonce +ℤ pos 1) (nonces_of tx.sender txs)
  own_nonce g =
      let start = expected (lookup tx.sender nonces) (next_nonce tx.sender chain) in
      let run =
        subst
          (λ b.
            IsRun start (if b then tx.nonce ∷ nonces_of tx.sender txs else nonces_of tx.sender txs))
          (beq_self tx.sender) g.run in
      (run.0, subst (λ x. IsRun (x +ℤ pos 1) (nonces_of tx.sender txs)) (sym run.0) run.1)

  own-Goes :
      Goes chain nonces first tx.sender (tx ∷ txs)
      → Goes chain
          (put tx.sender tx.nonce nonces)
          (set_first tx.sender tx.nonce first)
          tx.sender
          txs
  own-Goes g =
      let start = next_nonce tx.sender chain in
      let (due, run) = own_nonce g in
      let put_own =
        lookup-put tx.sender tx.sender tx.nonce nonces
        ∙ ap (λ b. if b then some tx.nonce else lookup tx.sender nonces) (beq_self tx.sender) in
      let first_own = lookup-set_first tx.sender tx.sender tx.nonce first (beq_self tx.sender) in
      record {
        run = subst (λ o. IsRun (expected o start) (nonces_of tx.sender txs)) (sym put_own) run;
        starts =
            subst (λ o. StartsAt o start) (sym first_own)
              (own_StartsAt (lookup tx.sender nonces) (lookup tx.sender first) tx.nonce start due
                g.both g.starts);
        both = ap is_some first_own ∙ sym (ap is_some put_own);
      }

  other-Goes :
      (s : String)
      → str_eq tx.sender s ≡ false
      → Goes chain nonces first s (tx ∷ txs)
      → Goes chain (put tx.sender tx.nonce nonces) (set_first tx.sender tx.nonce first) s txs
  other-Goes s n g =
      let start = next_nonce s chain in
      let put_other =
        lookup-put s tx.sender tx.nonce nonces
        ∙ ap (λ b. if b then some tx.nonce else lookup s nonces) n in
      let first_other = lookup-set_first_other tx.sender s tx.nonce first n in
      record {
        run =
            subst (λ o. IsRun (expected o start) (nonces_of s txs)) (sym put_other)
              (subst
                (λ b.
                  IsRun (expected (lookup s nonces) start)
                    (if b then tx.nonce ∷ nonces_of s txs else nonces_of s txs))
                n g.run);
        starts = subst (λ o. StartsAt o start) (sym first_other) g.starts;
        both = ap is_some first_other ∙ g.both ∙ sym (ap is_some put_other);
      }

  pub next-Goes :
      ((s : String) → Goes chain nonces first s (tx ∷ txs))
      → (s : String)
      → Goes chain (put tx.sender tx.nonce nonces) (set_first tx.sender tx.nonce first) s txs
  next-Goes g s = elim (Bool-cases (str_eq tx.sender s)) [
    | inl e ↦
        subst
          (λ t.
            Goes chain (put tx.sender tx.nonce nonces) (set_first tx.sender tx.nonce first) t txs)
          ((eq_iff tx.sender s).0 e) (own-Goes (g tx.sender))
    | inr n ↦ other-Goes s n (g s)
  ]

module _ (p : Primitives) (c : Poa) (dyn : Bool) (base_fee : ℕ) (chain : Dict String ℤ) where
  check_tx_passes :
      (seen : List String) (nonces : Dict String ℤ) (tx : Transaction) (k : Verdict)
      → IsGood p c dyn base_fee tx
      → member tx.tx_id seen ≡ false
      → has_gap (lookup tx.sender nonces) tx.nonce ≡ false
      → k ≡ accept
      → check_tx p c dyn base_fee seen nonces tx k ≡ accept
  unfolding check_tx
  check_tx_passes seen nonces tx k good unseen gap rest =
      let chain_ok : str_eq tx.chain_id main_chain_id ≡ true =
        (eq_iff tx.chain_id main_chain_id).1 good.on_chain in
      refuse_if-false (not (verify p tx)) _ _ (ap not good.signed) (
        refuse_if-false (not (str_eq tx.chain_id main_chain_id)) _ _ (ap not chain_ok) (
          refuse_if-false (member tx.tx_id seen) _ _ unseen (
            refuse_if-false (in_option tx.tx_id c.chain_tx_ids) _ _ good.fresh (
              rw good.payload_ok (
                refuse_if-false
                  (dyn && ltb 0 (tx_weights tx.tx_type) && ltb tx.max_fee_per_weight base_fee) _ _
                  (fee_passes dyn (tx_weights tx.tx_type) tx.max_fee_per_weight base_fee
                    good.covers_fee)
                  (refuse_if-false (signing_revoked tx.sender c) _ _ good.unrevoked (
                    refuse_if-false (has_gap (lookup tx.sender nonces) tx.nonce) _ k gap rest)))))))

  -- Good transactions with different ids, whose nonces go on from the chain's, are accepted.
  pub check_txs_passes :
      (txs : List Transaction) (seen : List String) (nonces first : Dict String ℤ)
      → c.chain_nonces ≡ some chain
      → All (IsGood p c dyn base_fee) txs
      → AllApart txs
      → All (λ u. member u.tx_id seen ≡ false) txs
      → ((s : String) → Goes chain nonces first s txs)
      → check_txs p c dyn base_fee txs seen nonces first ≡ accept
  unfolding check_txs
  check_txs_passes [] seen nonces first known good apart unseen goes =
      subst (λ o. check_nonces o first nonces ≡ accept) (sym known)
        (check_starts_passes chain first nonces (λ s there.
          starts_some (lookup s first) (lookup s nonces) (next_nonce s chain) (goes s).starts
            (goes s).both there))
  check_txs_passes (tx ∷ txs) seen nonces first known good apart unseen goes =
      let (due, _) = own_nonce chain nonces first tx txs (goes tx.sender) in
      check_tx_passes seen nonces tx _ good.0 unseen.0
        (gap_passes (lookup tx.sender nonces) tx.nonce (next_nonce tx.sender chain) due)
        (check_txs_passes txs (tx.tx_id ∷ seen) (put tx.sender tx.nonce nonces)
          (set_first tx.sender tx.nonce first) known good.1 apart.1
          (unseen_passes tx.tx_id seen txs apart.0 unseen.1)
          (next-Goes chain nonces first tx txs goes))
