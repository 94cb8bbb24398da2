-- ===== src/StateTrie/Proofs.antt =====
-- The inclusion proofs of core/state_tree.py: `get_proof` and `verify_proof` fit together.
use text.Mathlib.TextEquality.{path_by_compare}
use text.Mathlib.TextPositions.{compare_refl}
use qbit_network.Common.{
  ℕ, String, true, ◌++◌, List, [], ◌∷◌, none, some, ◌≡◌, refl, arith, map, get_elem?, get_elem?-map,
  All, eq_iff,
}
use qbit_network.Common.Dict.{lookup, get_or, string_eq}
use qbit_network.Common.Sorted.{sorted}
use qbit_network.Common.Sorted.Ascending.{
  text_le, IsAscending, Holds, sorted-IsAscending, sorted-Holds,
}
use qbit_network.Merkle.{Bytes, merkle_root, merkle_proof}
use qbit_network.Merkle.Complete.{verify_merkle_proof_complete}
use qbit_network.StateTrie.{
  Entries, StateTrie, Inclusion, init, bisect_left, sorted_leaves, compute_root, root, get_proof,
  verify_proof,
}
use qbit_network.StateTrie.Cache.{Call, run, IsFresh, root-IsFresh, run-IsFresh, dirty-IsFresh}

Holds-le :
    (s key : String) (l : List String)
    → All (λ t. text_le s t ≡ true) l
    → Holds key l
    → text_le s key ≡ true
Holds-le s key [] h g = elim g [ ]
Holds-le s key (t ∷ l) h g = ground (arith, Holds-le s key l h.1)

-- The insertion point of a text that an ascending list holds is a position of this text.
get_elem?-bisect_left :
    (l : List String) (key : String)
    → IsAscending l
    → Holds key l
    → get_elem? l (bisect_left l key) ≡ some key
unfolding bisect_left
get_elem?-bisect_left [] key h g = elim g [ ]
get_elem?-bisect_left (k ∷ l) key h g = ground (
  arith,
  compare_refl key,
  path_by_compare k key,
  Holds-le k key l h.0,
  get_elem?-bisect_left l key h.1,
)

keys_of : Entries → List String
keys_of entries = map (λ e. e.0) entries

lookup-Holds :
    (key : String) (value : Bytes) (entries : Entries)
    → lookup key entries ≡ some value
    → Holds key (keys_of entries)
unfolding lookup keys_of
lookup-Holds key value [] h = cc
lookup-Holds key value ((k, v) ∷ entries) h =
    ground (arith, eq_iff k key, lookup-Holds key value entries)

compute_root-leaves :
    (sha3_256 : Bytes → Bytes) (encode : String → Bytes) (entries : Entries) (key : String)
    (value : Bytes)
    → lookup key entries ≡ some value
    → compute_root sha3_256 encode entries
      ≡ merkle_root sha3_256 (sorted_leaves sha3_256 encode entries)
unfolding compute_root lookup
compute_root-leaves sha3_256 encode [] key value h = cc
compute_root-leaves sha3_256 encode (e ∷ entries) key value h = refl

module _ (sha3_256 : Bytes → Bytes) (encode : String → Bytes) (key : String) (value : Bytes) where
  abbrev position : Entries → ℕ
  position entries = bisect_left (sorted (map (λ e. e.0) entries)) key

  leaf_at_position :
      (entries : Entries)
      → lookup key entries ≡ some value
      → get_elem? (sorted_leaves sha3_256 encode entries) (position entries)
        ≡ some (sha3_256 (encode key ++ value))
  unfolding sorted_leaves keys_of
  leaf_at_position entries h =
      let held =
        get_elem?-bisect_left (sorted (keys_of entries)) key (sorted-IsAscending (keys_of entries))
          (sorted-Holds key (keys_of entries) (lookup-Holds key value entries h)) in
      rw
        (
          get_elem?-map (λ k. sha3_256 (encode k ++ get_or k [] entries)) (sorted (keys_of entries))
              (position entries) key held,
          h,
        )
        refl

  get_proof_of :
      (t : StateTrie)
      → lookup key t.entries ≡ some value
      → IsFresh sha3_256 encode t
      → (p : Inclusion) × ((get_proof sha3_256 encode key t).0 ≡ some p)
        × (p.key ≡ key)
        × (p.value ≡ value)
        × (p.root ≡ compute_root sha3_256 encode t.entries)
        × (verify_proof sha3_256 encode p.key p.value p.proof p.root ≡ true)
  unfolding get_proof verify_proof
  get_proof_of t h fresh =
      let is_root = (root-IsFresh sha3_256 encode t fresh).0 in
      let complete =
        verify_merkle_proof_complete sha3_256 (sorted_leaves sha3_256 encode t.entries)
          (position t.entries) (sha3_256 (encode key ++ value)) (leaf_at_position t.entries h) in
      (
        record {
          key = key;
          value = value;
          proof =
              merkle_proof sha3_256 (sorted_leaves sha3_256 encode t.entries) (position t.entries);
          root = (root sha3_256 encode t).0;
        },
        rw h refl,
        refl,
        refl,
        is_root,
        rw (is_root, compute_root-leaves sha3_256 encode t.entries key value h) complete,
      )

-- After any sequence of calls on a new trie, `get_proof` returns for a key of the trie its value and
-- a proof that `verify_proof` accepts for this key and value against the root of the entries.
pub get_proof-run :
    (sha3_256 : Bytes → Bytes) (encode : String → Bytes) (calls : List Call) (key : String)
    (value : Bytes)
    → lookup key (run sha3_256 encode calls init).entries ≡ some value
    → let t = run sha3_256 encode calls init in
      (p : Inclusion) × ((get_proof sha3_256 encode key t).0 ≡ some p)
      × (p.key ≡ key)
      × (p.value ≡ value)
      × (p.root ≡ compute_root sha3_256 encode t.entries)
      × (verify_proof sha3_256 encode p.key p.value p.proof p.root ≡ true)
unfolding init
get_proof-run sha3_256 encode calls key value h =
    get_proof_of sha3_256 encode key value (run sha3_256 encode calls init) h
      (run-IsFresh sha3_256 encode calls init (dirty-IsFresh sha3_256 encode [] none))
