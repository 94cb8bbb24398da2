-- ===== src/Notary/Verify.antt =====
-- `verify_proof` of qbit_network/core/proof.py.
use qbit_network.Common.{
  Bool, true, false, not, List, [], ◌∷◌, ◌++◌, Option, none, some, if◌then◌else◌,
}
use qbit_network.Common.Dict.{or_else}
use qbit_network.Common.Exec.{Result, ok, err}
use qbit_network.Common.Hex.{from_hex, to_hex}
use qbit_network.Common.Int.{ℤ, pos, ltb_ℤ}
use qbit_network.Merkle.{Bytes, ProofPath, bytes_eq, verify_merkle_proof}
use qbit_network.Merkle.Octets.{parse_path}
use qbit_network.Header.{Text, Crypto, Header}
use qbit_network.Notary.{Proof, BlockPart, proof_type_name, chain_id}

-- The messages in the list of errors.
pub data Flaw : Type 0 where
  wrong_type unsupported_version wrong_chain not_in_block wrong_block_hash : Flaw
  bad_signature unreadable_signature : Flaw

-- What leaves the function as an exception.
pub data Fault : Type 0 where
  value_error key_error : Fault

-- `proof.get("type") != PROOF_TYPE`
abbrev pub differs : Option Text → Bool
differs none = true
differs (some t) = not (bytes_eq t proof_type_name)

unfoldable pub chain_flaws : Option Text → List Flaw
chain_flaws none = []
chain_flaws (some t) = if bytes_eq t chain_id then [] else wrong_chain ∷ []

-- The keys of the block that must be there: index, merkleRoot, prevHash, timestamp, validator.
abbrev pub header_from :
    BlockPart → Option ℤ → Option Text → Option Text → Option ℤ → Option Text → Option Header
header_from b (some index) (some merkle_root) (some prev_hash) (some timestamp) (some validator) =
    some (record {
      base_fee = or_else b.base_fee (pos 0);
      index = index;
      merkle_root = merkle_root;
      prev_hash = prev_hash;
      timestamp = timestamp;
      tx_count = or_else b.tx_count 0;
      validator = validator;
      receipts_root = or_else b.receipts_root [];
      state_root = or_else b.state_root [];
    })
header_from b _ _ _ _ _ = none

-- `header_obj`
unfoldable pub header_of : BlockPart → Option Header
header_of b = header_from b b.index b.merkle_root b.prev_hash b.timestamp b.validator

abbrev pub no_flaw : List Flaw → Bool
no_flaw [] = true
no_flaw (x ∷ l) = false

module _ (c : Crypto) where
  -- "1. Verify Merkle proof", of what the texts in hex stand for; `none` is a ValueError.
  unfoldable pub merkle_flaws : Option Bytes → Option ProofPath → Option Bytes → Option (List Flaw)
  merkle_flaws (some leaf) (some path) (some root) =
      some (if verify_merkle_proof c.sha3_256 leaf path root then [] else not_in_block ∷ [])
  merkle_flaws _ _ _ = none

  -- "2. Verify block header hash"
  unfoldable pub hash_flaws : Bytes → Text → List Flaw
  hash_flaws header_bytes claimed =
      if bytes_eq (to_hex (c.sha3_256 header_bytes)) claimed then [] else wrong_block_hash ∷ []

  abbrev pub checked_signature : Bytes → Option Bytes → Option Bytes → List Flaw
  checked_signature header_bytes (some key) (some signature) =
      if c.mldsa_verify key header_bytes signature then [] else bad_signature ∷ []
  checked_signature header_bytes _ _ = unreadable_signature ∷ []

  -- "3. Verify block signature if validator_pubkey is available"
  unfoldable pub signature_flaws : Bytes → Text → Text → List Flaw
  signature_flaws header_bytes [] signature = []
  signature_flaws header_bytes (a ∷ key) [] = []
  signature_flaws header_bytes (a ∷ key) (b ∷ signature) =
      checked_signature header_bytes (from_hex (a ∷ key)) (from_hex (b ∷ signature))

  abbrev pub report : List Flaw → Result Fault (Bool × List Flaw)
  report flaws = ok (no_flaw flaws, flaws)

  unfoldable pub verify_header : Proof → List Flaw → Option Header → Result Fault (Bool × List Flaw)
  verify_header p flaws none = err key_error
  verify_header p flaws (some header) =
      let header_bytes = c.header_json header in
      report (
        flaws
        ++ hash_flaws header_bytes (or_else p.block.hash [])
        ++ signature_flaws header_bytes (or_else p.validator_pubkey [])
            (or_else p.block.signature []))

  abbrev pub verify_rest : Proof → Option (List Flaw) → Result Fault (Bool × List Flaw)
  verify_rest p none = err value_error
  verify_rest p (some in_block) =
      verify_header p (chain_flaws p.proof_chain_id ++ in_block) (header_of p.block)

  unfoldable pub verify_proof : Proof → Result Fault (Bool × List Flaw)
  verify_proof p =
      if differs p.proof_type
      then ok (false, wrong_type ∷ [])
      else if ltb_ℤ (or_else p.version (pos 0)) (pos 1)
      then ok (false, unsupported_version ∷ [])
      else verify_rest p (
          merkle_flaws (from_hex (or_else p.tx_id [])) (parse_path (or_else p.merkle_path []))
            (from_hex (or_else p.block.merkle_root [])))
