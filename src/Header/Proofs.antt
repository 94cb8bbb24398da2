-- ===== src/Header/Proofs.antt =====
-- core/block.py: the proofs that a block gives of its transactions, and the block behind a dict.
use qbit_network.Common.{
  ℕ, zero, suc, true, false, List, [], ◌∷◌, Option, none, some, ◌≡◌, refl, sym, get_elem?, map, ap,
  Option-cases, inl, inr,
}
use qbit_network.Common.Exec.{ok}
use qbit_network.Common.Hex.{from_hex, to_hex, from_hex-to_hex}
use qbit_network.Common.Int.{pos, ltb_ℤ}
use qbit_network.Merkle.{Bytes, ProofPath, merkle_root, merkle_proof}
use qbit_network.Merkle.Complete.{verify_merkle_proof_complete, bytes_eq_self}
use qbit_network.Merkle.Octets.{IsOctets, merkle_root-IsOctets}
use qbit_network.Header.{
  Text, Crypto, Tx, Block, from_hex_all, add_hash, tx_ids, init, remake, block_hash, get_tx_proof,
  verify_tx_proof,
}
use qbit_network.Header.Dicts.{to_dict, from_dict, txs_from_dicts, mismatch}

-- The hashes behind the ids of a block's transactions, and its Merkle root over them: what
-- `Block.__init__` has computed.
pub record IsBuilt (c : Crypto) (b : Block) (tx_hashes : List Bytes) : Type 0 where
  pub hashes : from_hex_all (tx_ids b.transactions) ≡ some tx_hashes
  pub root : b.merkle_root ≡ to_hex (merkle_root c.sha3_256 tx_hashes)

add_hash-some :
    (o : Option Bytes) (p : Option (List Bytes)) (l : List Bytes)
    → add_hash o p ≡ some l
    → (b : Bytes) × (t : List Bytes) × (o ≡ some b) × (p ≡ some t) × (l ≡ b ∷ t)
add_hash-some (some b) (some t) l h = (b, t, refl, refl, cc)
add_hash-some (some b) none l h = cc
add_hash-some none p l h = cc

pub get_elem?-from_hex_all :
    (ids : List Text) (hashes : List Bytes) (i : ℕ) (x : Text)
    → from_hex_all ids ≡ some hashes
    → get_elem? ids i ≡ some x
    → (y : Bytes) × (from_hex x ≡ some y) × (get_elem? hashes i ≡ some y)
unfolding from_hex_all
get_elem?-from_hex_all [] hashes i x h g = cc
get_elem?-from_hex_all (id ∷ ids) hashes zero x h g =
    let (b, t, this, rest, e) = add_hash-some (from_hex id) (from_hex_all ids) hashes h in
    (b, cc, rw e refl)
get_elem?-from_hex_all (id ∷ ids) hashes (suc i) x h g =
    let (b, t, this, rest, e) = add_hash-some (from_hex id) (from_hex_all ids) hashes h in
    let (y, hex, there) = get_elem?-from_hex_all ids t i x rest g in (y, hex, rw e there)

pub get_elem?-tx_ids :
    (txs : List Tx) (i : ℕ) (tx : Tx)
    → get_elem? txs i ≡ some tx
    → get_elem? (tx_ids txs) i ≡ some tx.tx_id
get_elem?-tx_ids [] i tx h = cc
get_elem?-tx_ids (x ∷ txs) zero tx h = cc
get_elem?-tx_ids (x ∷ txs) (suc i) tx h = get_elem?-tx_ids txs i tx h

none-ne-some : {A : Type 0} (a : A) → ◌≡◌ {A = Option A} none (some a) → ⊥
none-ne-some a h = cc

some_inj : {A : Type 0} (a b : A) → some a ≡ some b → a ≡ b
some_inj a b h = cc

-- The constructor of a block, by the hashes that it found.
pub remake-IsBuilt :
    (c : Crypto) (b : Block) → remake c b ≡ some b → (hashes : List Bytes) × IsBuilt c b hashes
unfolding init
remake-IsBuilt c b h = elim (Option-cases (from_hex_all (tx_ids b.transactions))) [
  | inl failed ↦ absurd (none-ne-some b (rw (failed, init) at h))
  | inr (hashes, found) ↦
      (let e = some_inj _ b (rw (found, init) at h) in
        (hashes, record { hashes = found; root = ap (λ x. x.merkle_root) (sym e) }))
]

-- In a block as the constructor makes it: the proof of a transaction is there, and the block accepts
-- it for the id of this transaction, if SHA3-256 returns bytes.
pub verify_tx_proof-get_tx_proof :
    (c : Crypto) (b : Block) (i : ℕ) (tx : Tx)
    → ((x : Bytes) → IsOctets (c.sha3_256 x))
    → remake c b ≡ some b
    → get_elem? b.transactions i ≡ some tx
    → (proof : ProofPath) × (get_tx_proof c i b ≡ some proof)
      × (verify_tx_proof c tx.tx_id proof b ≡ some true)
unfolding get_tx_proof verify_tx_proof
verify_tx_proof-get_tx_proof c b i tx octets made here =
    let (hashes, built) = remake-IsBuilt c b made in
    let (leaf, hex, there) =
      get_elem?-from_hex_all (tx_ids b.transactions) hashes i tx.tx_id built.hashes
        (get_elem?-tx_ids b.transactions i tx here) in
    let root = merkle_root c.sha3_256 hashes in
    (
      merkle_proof c.sha3_256 hashes i,
      rw built.hashes refl,
      rw
          (
            hex,
            built.root,
            from_hex-to_hex root (merkle_root-IsOctets c.sha3_256 octets hashes),
            verify_merkle_proof_complete c.sha3_256 hashes i leaf there,
          )
          refl,
    )

module _ {D : Type 0} (tx_to_dict : Tx → D) (tx_from_dict : D → Option Tx)
    (carried : (tx : Tx) → tx_from_dict (tx_to_dict tx) ≡ some tx) where
  txs_from_dicts-map : (txs : List Tx) → txs_from_dicts tx_from_dict (map tx_to_dict txs) ≡ some txs
  unfolding txs_from_dicts
  txs_from_dicts-map [] = refl
  txs_from_dicts-map (tx ∷ txs) = rw (carried tx, txs_from_dicts-map txs) refl

mismatch_self : (t : Text) → mismatch t t ≡ false
unfolding mismatch
mismatch_self [] = refl
mismatch_self (a ∷ t) = rw (bytes_eq_self (a ∷ t)) refl

-- A block as the constructor makes it, with a base fee of zero or more and a signature of bytes,
-- comes back from its dict, hash check included, if the dicts of transactions do.
pub from_dict-to_dict :
    {D : Type 0} (tx_to_dict : Tx → D) (tx_from_dict : D → Option Tx) (c : Crypto) (b : Block)
    → ((tx : Tx) → tx_from_dict (tx_to_dict tx) ≡ some tx)
    → remake c b ≡ some b
    → ltb_ℤ b.base_fee (pos 0) ≡ false
    → IsOctets b.signature
    → from_dict tx_from_dict c (to_dict tx_to_dict c b) ≡ ok b
unfolding from_dict to_dict
from_dict-to_dict tx_to_dict tx_from_dict c b carried made fee octets =
    rw
      (
        fee,
        txs_from_dicts-map tx_to_dict tx_from_dict carried b.transactions,
        from_hex-to_hex b.signature octets,
        made,
        mismatch_self (block_hash c b),
      )
      refl
