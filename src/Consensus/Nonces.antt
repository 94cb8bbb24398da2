-- ===== src/Consensus/Nonces.antt =====
-- The nonces of the transactions of a block that validate_block accepts.
use mathlib.Core.Path.{subst}
use qbit_network.Common.{
  ℕ, String, Bool, true, false, not, ◌&&◌, List, [], ◌∷◌, Option, none, some, ◌≡◌, ◌≢◌, refl, sym,
  ap, ◌∙◌, ltb, str_eq, eq_iff, arith, if◌then◌else◌, not-false, inl, inr, Bool-cases, Option-cases,
}
use qbit_network.Common.Int.{ℤ, pos, ◌+ℤ◌, eqb_ℤ, eqb_ℤ→eq}
use qbit_network.Common.Dict.{
  Dict, lookup, put, contains, is_some, or_else, lookup-put, beq_self, string_eq,
}
use qbit_network.Common.Exec.{Result, ok, err, accept, refuse_if_lem}
use qbit_network.Config.{main_chain_id, tx_weights}
use qbit_network.Transaction.{Transaction, Primitives, verify}
use qbit_network.Payload.{Refusal}
use qbit_network.Payload.Validate.{validate_payload}
use qbit_network.Staking.{member}
use qbit_network.Consensus.Validate.{
  Invalid, Poa, Verdict, in_option, signing_revoked, check_payload, has_gap, set_first, next_nonce,
  check_start, check_starts, check_nonces, check_tx, check_txs,
}

-- The nonces of one sender, in the order of the block.
abbrev pub nonces_of : String → List Transaction → List ℤ
nonces_of s [] = []
nonces_of s (tx ∷ txs) = if str_eq tx.sender s then tx.nonce ∷ nonces_of s txs else nonces_of s txs

-- Consecutive numbers from `start` on.
abbrev pub IsRun : ℤ → List ℤ → Type 0
IsRun start [] = Unit {0}
IsRun start (n ∷ l) = (n ≡ start) × IsRun (start +ℤ pos 1) l

-- What a round of the loop checks of its transaction.
pub record TxFacts (p : Primitives) (c : Poa) (dyn : Bool) (base_fee : ℕ) (seen : List String)
    (nonces : Dict String ℤ) (tx : Transaction) : Type 0 where
  pub signed : verify p tx ≡ true
  pub on_chain : tx.chain_id ≡ main_chain_id
  pub unseen : member tx.tx_id seen ≡ false
  pub fresh : in_option tx.tx_id c.chain_tx_ids ≡ false
  pub payload_ok : validate_payload p tx ≡ accept
  pub fee_ok : dyn && ltb 0 (tx_weights tx.tx_type) && ltb tx.max_fee_per_weight base_fee ≡ false
  pub unrevoked : signing_revoked tx.sender c ≡ false
  pub no_gap : has_gap (lookup tx.sender nonces) tx.nonce ≡ false

check_payload_lem :
    (r : Result Refusal (Unit {0})) (k : Verdict)
    → check_payload r k ≡ accept
    → (r ≡ accept) × (k ≡ accept)
check_payload_lem (ok x) k h = (refl, h)
check_payload_lem (err e) k h = cc

pub check_tx_lem :
    (p : Primitives) (c : Poa) (dyn : Bool) (base_fee : ℕ) (seen : List String)
    (nonces : Dict String ℤ) (tx : Transaction) (k : Verdict)
    → check_tx p c dyn base_fee seen nonces tx k ≡ accept
    → TxFacts p c dyn base_fee seen nonces tx × (k ≡ accept)
unfolding check_tx
check_tx_lem p c dyn base_fee seen nonces tx k h =
    let cheap = dyn && ltb 0 (tx_weights tx.tx_type) && ltb tx.max_fee_per_weight base_fee in
    let (signed, a) = refuse_if_lem (not (verify p tx)) _ _ h in
    let (chain, b) = refuse_if_lem (not (str_eq tx.chain_id main_chain_id)) _ _ a in
    let (unseen, d) = refuse_if_lem (member tx.tx_id seen) _ _ b in
    let (fresh, e) = refuse_if_lem (in_option tx.tx_id c.chain_tx_ids) _ _ d in
    let (payload, f) = check_payload_lem (validate_payload p tx) _ e in
    let (fee, g) = refuse_if_lem cheap _ _ f in
    let (revoked, i) = refuse_if_lem (signing_revoked tx.sender c) _ _ g in
    let (gap, last) = refuse_if_lem (has_gap (lookup tx.sender nonces) tx.nonce) _ k i in
    (
      record {
        signed = not-false (verify p tx) signed;
        on_chain =
            (eq_iff tx.chain_id main_chain_id).0
              (not-false (str_eq tx.chain_id main_chain_id) chain);
        unseen = unseen;
        fresh = fresh;
        payload_ok = payload;
        fee_ok = fee;
        unrevoked = revoked;
        no_gap = gap;
      },
      last,
    )

-- The nonce that the next transaction of a sender must have.
abbrev pub expected : Option ℤ → ℤ → ℤ
expected none start = start
expected (some prev) start = prev +ℤ pos 1

-- The first nonce of a sender, if there is one, is the one that the chain expects.
abbrev pub StartsAt : Option ℤ → ℤ → Type 0
StartsAt none start = Unit {0}
StartsAt (some n) start = n ≡ start

gap_lem : (o : Option ℤ) (n : ℤ) (start : ℤ) → has_gap o n ≡ false → o ≢ none → n ≡ expected o start
gap_lem none n start h some_prev = absurd (some_prev refl)
gap_lem (some prev) n start h some_prev =
    eqb_ℤ→eq n (prev +ℤ pos 1) (not-false (eqb_ℤ n (prev +ℤ pos 1)) h)

absent_StartsAt : (o : Option ℤ) (start : ℤ) → is_some o ≡ false → StartsAt o start
absent_StartsAt none start h = tt
absent_StartsAt (some n) start h = cc

check_start_lem :
    (o : Option ℤ) (start : ℤ) (k : Verdict)
    → check_start o start k ≡ accept
    → StartsAt o start × (k ≡ accept)
check_start_lem none start k h = cc
check_start_lem (some n) start k h =
    let (same, rest) = refuse_if_lem (not (eqb_ℤ n start)) Invalid.nonce_mismatch k h in
    (eqb_ℤ→eq n start (not-false (eqb_ℤ n start) same), rest)

check_starts_lem :
    (chain first nonces : Dict String ℤ) (s : String)
    → check_starts chain first nonces ≡ accept
    → contains s nonces ≡ true
    → StartsAt (lookup s first) (next_nonce s chain)
unfolding check_starts lookup
check_starts_lem chain first [] s h there = cc
check_starts_lem chain first ((sender, last) ∷ nonces) s h there =
    let (here, rest) =
      check_start_lem (lookup sender first) (next_nonce sender chain)
        (check_starts chain first nonces) h in
    elim (Bool-cases (str_eq sender s)) [
      | inl e ↦
          subst (λ x. StartsAt (lookup x first) (next_nonce x chain)) ((eq_iff sender s).0 e) here
      | inr n ↦ check_starts_lem chain first nonces s rest (further n)
    ]
  where
    further : str_eq sender s ≡ false → contains s nonces ≡ true
    further n = ground arith

pub lookup-set_first_other :
    (t s : String) (n : ℤ) (first : Dict String ℤ)
    → str_eq t s ≡ false
    → lookup s (set_first t n first) ≡ lookup s first
lookup-set_first_other t s n first h = elim (Bool-cases (contains t first)) [
  | inl e ↦ rw e refl
  | inr a ↦ rw (a, lookup-put s t n first, h) refl
]

pub lookup-set_first :
    (t s : String) (n : ℤ) (first : Dict String ℤ)
    → str_eq t s ≡ true
    → lookup s (set_first t n first) ≡ some (or_else (lookup s first) n)
lookup-set_first t s n first h =
    subst (λ x. lookup s (set_first x n first) ≡ some (or_else (lookup s first) n))
      (sym ((eq_iff t s).0 h)) own
  where
    own : lookup s (set_first s n first) ≡ some (or_else (lookup s first) n)
    own = elim (Option-cases (lookup s first)) [
      | inl e ↦ rw (e, lookup-put s s n first, beq_self s) refl
      | inr (f, e) ↦ rw (e, e) refl
    ]

-- The next transaction of a sender continues the run, and its own is the first of the rest.
own-IsRun :
    (o f : Option ℤ) (n start : ℤ) (l : List ℤ)
    → has_gap o n ≡ false
    → is_some f ≡ is_some o
    → StartsAt (some (or_else f n)) start
    → IsRun (n +ℤ pos 1) l
    → IsRun (expected o start) (n ∷ l) × StartsAt f start
own-IsRun none none n start l gap same st run = ((st, subst (λ x. IsRun (x +ℤ pos 1) l) st run), tt)
own-IsRun none (some f) n start l gap same st run = cc
own-IsRun (some prev) none n start l gap same st run = cc
own-IsRun (some prev) (some f) n start l gap same st run =
    let e = eqb_ℤ→eq n (prev +ℤ pos 1) (not-false (eqb_ℤ n (prev +ℤ pos 1)) gap) in
    ((e, subst (λ x. IsRun (x +ℤ pos 1) l) e run), st)

-- The claim on a sender's run under equal entries of the two dicts.
moved-IsRun :
    (o o' f f' : Option ℤ) (start : ℤ) (l : List ℤ)
    → o ≡ o'
    → f ≡ f'
    → (is_some f ≡ is_some o → IsRun (expected o start) l × StartsAt f start)
    → is_some f' ≡ is_some o'
    → IsRun (expected o' start) l × StartsAt f' start
moved-IsRun o o' f f' start l e g claim same =
    let r = claim (ap is_some g ∙ same ∙ sym (ap is_some e)) in
    (subst (λ x. IsRun (expected x start) l) e r.0, subst (λ x. StartsAt x start) g r.1)

module _ (p : Primitives) (c : Poa) (dyn : Bool) (base_fee : ℕ) (chain : Dict String ℤ)
    (s : String) where
  pub check_txs-IsRun :
      (txs : List Transaction) (seen : List String) (nonces first : Dict String ℤ)
      → check_txs p c dyn base_fee txs seen nonces first ≡ accept
      → c.chain_nonces ≡ some chain
      → is_some (lookup s first) ≡ is_some (lookup s nonces)
      → IsRun (expected (lookup s nonces) (next_nonce s chain)) (nonces_of s txs)
        × StartsAt (lookup s first) (next_nonce s chain)
  unfolding check_txs
  check_txs-IsRun [] seen nonces first h known same = (
    tt,
    elim (Bool-cases (contains s nonces)) [
      | inl there ↦ check_starts_lem chain first nonces s (final known h) there
      | inr absent ↦ absent_StartsAt (lookup s first) (next_nonce s chain) (same ∙ absent)
    ],
  )
    where
      final :
          c.chain_nonces ≡ some chain
          → check_nonces c.chain_nonces first nonces ≡ accept
          → check_starts chain first nonces ≡ accept
      final e g = subst (λ x. check_nonces x first nonces ≡ accept) e g
  check_txs-IsRun (tx ∷ txs) seen nonces first h known same =
      let start = next_nonce s chain in
      let l = nonces_of s txs in
      let (facts, rest) = check_tx_lem p c dyn base_fee seen nonces tx _ h in
      let ih =
        check_txs-IsRun txs (tx.tx_id ∷ seen) (put tx.sender tx.nonce nonces)
          (set_first tx.sender tx.nonce first) rest known in
      elim (Bool-cases (str_eq tx.sender s)) [
        | inl e ↦ rw e (
            let r =
              moved-IsRun (lookup s (put tx.sender tx.nonce nonces)) (some tx.nonce)
                (lookup s (set_first tx.sender tx.nonce first))
                (some (or_else (lookup s first) tx.nonce)) start l
                (lookup-put s tx.sender tx.nonce nonces
                  ∙ ap (λ b. if b then some tx.nonce else lookup s nonces) e)
                (lookup-set_first tx.sender s tx.nonce first e) ih refl in
            own-IsRun (lookup s nonces) (lookup s first) tx.nonce start l
              (subst (λ x. has_gap (lookup x nonces) tx.nonce ≡ false) ((eq_iff tx.sender s).0 e)
                facts.no_gap)
              same r.1 r.0)
        | inr n ↦ rw n (
            moved-IsRun (lookup s (put tx.sender tx.nonce nonces)) (lookup s nonces)
              (lookup s (set_first tx.sender tx.nonce first)) (lookup s first) start l
              (lookup-put s tx.sender tx.nonce nonces
                ∙ ap (λ b. if b then some tx.nonce else lookup s nonces) n)
              (lookup-set_first_other tx.sender s tx.nonce first n) ih same)
      ]
