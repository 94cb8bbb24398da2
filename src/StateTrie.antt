-- ===== src/StateTrie.antt =====
-- qbit_network/core/state_tree.py: the sorted key-value Merkle trie behind the state root. The hash
-- function and the encoding of texts as bytes (`str.encode`) are parameters.
pub mod Cache
pub mod Proofs
mod Examples
use qbit_network.Common.{
  ℕ, suc, String, Bool, true, false, not, ◌&&◌, ◌||◌, List, [], ◌∷◌, ◌++◌, Option, none, some,
  if◌then◌else◌, map, length,
}
use Prim.Native.Nat.{Ordering}
use Prim.Native.String.{compare}
use qbit_network.Common.Dict.{Dict, lookup, put, pop, get_or, contains, string_eq}
use qbit_network.Common.Sorted.{sorted}
use qbit_network.Merkle.{Bytes, ProofPath, bytes_eq, merkle_root, merkle_proof, verify_merkle_proof}

abbrev pub Entries : Type 0
Entries = Dict String Bytes

pub record StateTrie : Type 0 where
  pub entries : Entries
  pub dirty : Bool
  pub cached_root : Option Bytes

unfoldable pub init : StateTrie
init = record { entries = []; dirty = true; cached_root = none }

abbrev pub changes : Option Bytes → Bytes → Bool
changes none value = true
changes (some old) value = not (bytes_eq old value)

unfoldable pub set : String → Bytes → StateTrie → StateTrie
set key value t =
    if changes (lookup key t.entries) value
    then record t { entries = put key value t.entries; dirty = true }
    else t

unfoldable pub delete : String → StateTrie → StateTrie
delete key t =
    if contains key t.entries then record t { entries = pop key t.entries; dirty = true } else t

unfoldable pub snapshot : StateTrie → Entries
snapshot t = t.entries

unfoldable pub restore : Entries → StateTrie → StateTrie
restore entries t = record t { entries = entries; dirty = true }

-- `bisect.bisect_left`
unfoldable pub bisect_left : List String → String → ℕ
bisect_left [] key = 0
bisect_left (k ∷ keys) key =
    let rest = bisect_left keys key in elim (compare k key) [ Ordering.lt ↦ suc rest | _ ↦ 0 ]

-- b"empty_state"
abbrev pub empty_state_tag : Bytes
empty_state_tag = 101 ∷ 109 ∷ 112 ∷ 116 ∷ 121 ∷ 95 ∷ 115 ∷ 116 ∷ 97 ∷ 116 ∷ 101 ∷ []

-- What `get_proof` returns, with its bytes not yet in hex.
pub record Inclusion : Type 0 where
  pub key : String
  pub value : Bytes
  pub proof : ProofPath
  pub root : Bytes

module _ (sha3_256 : Bytes → Bytes) (encode : String → Bytes) where
  unfoldable pub sorted_leaves : Entries → List Bytes
  sorted_leaves entries =
      map (λ k. sha3_256 (encode k ++ get_or k [] entries)) (sorted (map (λ e. e.0) entries))

  -- The root that `root` computes when it does not read the cache.
  unfoldable pub compute_root : Entries → Bytes
  compute_root [] = sha3_256 empty_state_tag
  compute_root (e ∷ entries) = merkle_root sha3_256 (sorted_leaves (e ∷ entries))

  abbrev refresh : StateTrie → Bytes × StateTrie
  refresh t =
      let computed = compute_root t.entries in
      (computed, record t { cached_root = some computed; dirty = false })

  unfoldable pub root : StateTrie → Bytes × StateTrie
  root t =
      if t.dirty
      then refresh t
      else elim t.cached_root [ none ↦ refresh t | some cached ↦ (cached, t) ]

  -- The proof for a key that the trie has, by its value.
  abbrev pub prove : String → Option Bytes → StateTrie → Option Inclusion × StateTrie
  prove key none t = (none, t)
  prove key (some value) t =
      let keys = sorted (map (λ e. e.0) t.entries) in
      (
        some (record {
          key = key;
          value = value;
          proof = merkle_proof sha3_256 (sorted_leaves t.entries) (bisect_left keys key);
          root = (root t).0;
        }),
        (root t).1,
      )

  unfoldable pub get_proof : String → StateTrie → Option Inclusion × StateTrie
  get_proof key t = prove key (lookup key t.entries) t

  unfoldable pub verify_proof : String → Bytes → ProofPath → Bytes → Bool
  verify_proof key value proof root' =
      verify_merkle_proof sha3_256 (sha3_256 (encode key ++ value)) proof root'
