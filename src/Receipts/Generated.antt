-- ===== src/Receipts/Generated.antt =====
-- What the loop that generates the receipts of a block returns and stores.
use qbit_network.Common.{
  ℕ, zero, suc, ◌+◌, String, Bool, true, false, ◌||◌, List, [], ◌∷◌, some, ◌≡◌, ◌≢◌, refl, arith,
  map, get_elem?, if◌then◌else◌, str_eq, eq_iff, ap, ◌∙◌,
}
use qbit_network.Common.Dict.{Dict, lookup, put, lookup-put, string_eq, nat_eq}
use qbit_network.Common.Exec.{Result, ok}
use qbit_network.Common.Int.{pos, ltb_ℤ}
use qbit_network.Staking.{member}
use qbit_network.Receipts.{Receipt, make}
use qbit_network.Receipts.Record.{
  Receipts, Entry, receipt_for, record_receipt, generate, block_receipts,
}

abbrev pub entry_ids : List Entry → List String
entry_ids es = map (λ e. e.tx_id) es

-- The data of a block: numbered from `n` on, with ids that are not empty and stand once.
abbrev pub IsReceiptData : ℕ → List Entry → Type 0
IsReceiptData n [] = Unit {0}
IsReceiptData n (e ∷ es) =
    (e.tx_index ≡ n)
    × (e.tx_id ≢ "")
    × (member e.tx_id (entry_ids es) ≡ false)
    × IsReceiptData (suc n) es

pub ok_inj : {E A : Type 0} (a b : A) → ◌≡◌ {A = Result E A} (ok a) (ok b) → a ≡ b
ok_inj a b h = cc

make-ok :
    (r : Receipt)
    → r.tx_id ≢ ""
    → (str_eq r.status "success" || str_eq r.status "failure") ≡ true
    → ltb_ℤ r.fee_paid (pos 0) ≡ false
    → ltb_ℤ r.block_index (pos 0) ≡ false
    → ltb_ℤ r.tx_index (pos 0) ≡ false
    → make r ≡ ok r
unfolding make
make-ok r named status fee block_index tx_index =
    let has_id : str_eq r.tx_id "" ≡ false = ground (arith, eq_iff r.tx_id "") in
    rw (has_id, status, fee, block_index, tx_index) refl

known_status :
    (b : Bool)
    → (str_eq (if b then "failure" else "success") "success"
        || str_eq (if b then "failure" else "success") "failure")
      ≡ true
known_status true = refl
known_status false = refl

make-receipt_for :
    (idx : ℕ) (failed : List String) (e : Entry)
    → e.tx_id ≢ ""
    → make (receipt_for idx failed e) ≡ ok (receipt_for idx failed e)
unfolding receipt_for
make-receipt_for idx failed e h =
    make-ok (receipt_for idx failed e) h (known_status (member e.tx_id failed)) (ground arith)
      (ground arith) (ground arith)

module _ (idx : ℕ) (failed : List String) where
  pub put_all : List Entry → Dict String Receipt → Dict String Receipt
  put_all [] d = d
  put_all (e ∷ es) d = put_all es (put e.tx_id (receipt_for idx failed e) d)

  pub generate-ok :
      (n : ℕ) (es : List Entry) (s : Receipts)
      → IsReceiptData n es
      → ((generate idx failed es s).0 ≡ ok (map (receipt_for idx failed) es))
        × ((generate idx failed es s).1.receipts ≡ put_all es s.receipts)
  unfolding generate put_all record_receipt
  generate-ok n [] s h = (refl, refl)
  generate-ok n (e ∷ es) s h =
      let (returned, stored) =
        generate-ok (suc n) es (record_receipt idx e (receipt_for idx failed e) s) h.3 in
      rw (make-receipt_for idx failed e h.1, generate) (rw returned refl, stored)

  lookup-put_all :
      (k : String) (es : List Entry) (d : Dict String Receipt)
      → member k (entry_ids es) ≡ false
      → lookup k (put_all es d) ≡ lookup k d
  unfolding put_all member
  lookup-put_all k [] d h = refl
  lookup-put_all k (e ∷ es) d h = ground (
    arith,
    lookup-put_all k es (put e.tx_id (receipt_for idx failed e) d),
    lookup-put k e.tx_id (receipt_for idx failed e) d,
  )

  lookup-put_all_self :
      (n : ℕ) (e : Entry) (es : List Entry) (d : Dict String Receipt)
      → IsReceiptData n (e ∷ es)
      → lookup e.tx_id (put_all (e ∷ es) d) ≡ some (receipt_for idx failed e)
  unfolding put_all
  lookup-put_all_self n e es d h =
      lookup-put_all e.tx_id es (put e.tx_id (receipt_for idx failed e) d) h.2
      ∙ ground
          (arith, eq_iff e.tx_id e.tx_id, lookup-put e.tx_id e.tx_id (receipt_for idx failed e) d)

  pub block_receipts-put_all :
      (n : ℕ) (es : List Entry) (d : Dict String Receipt)
      → IsReceiptData n es
      → block_receipts (entry_ids es) (put_all es d) ≡ map (receipt_for idx failed) es
  unfolding block_receipts put_all
  block_receipts-put_all n [] d h = refl
  block_receipts-put_all n (e ∷ es) d h = rw (lookup-put_all_self n e es d h) (
      ap (λ l. receipt_for idx failed e ∷ l)
        (block_receipts-put_all (suc n) es (put e.tx_id (receipt_for idx failed e) d) h.3))

  pub lookup-get_elem? :
      (n : ℕ) (es : List Entry) (i : ℕ) (e : Entry) (d : Dict String Receipt)
      → IsReceiptData n es
      → get_elem? es i ≡ some e
      → (lookup e.tx_id (put_all es d) ≡ some (receipt_for idx failed e)) × (e.tx_index ≡ n + i)
  unfolding put_all
  lookup-get_elem? n [] i e d h here = cc
  lookup-get_elem? n (x ∷ es) zero e d h here =
      let same : x ≡ e = cc in rw (← same) (lookup-put_all_self n x es d h, omega arith)
  lookup-get_elem? n (x ∷ es) (suc i) e d h here =
      let (found, at_i) =
        lookup-get_elem? (suc n) es i e (put x.tx_id (receipt_for idx failed x) d) h.3 here in
      (found, omega (arith, at_i))
