-- ===== src/StateTrie/Examples.antt =====
-- The trie after a few calls, over a toy hash function.
use qbit_network.Common.{String, List, [], ◌∷◌, some, true, ◌≡◌, refl}
use qbit_network.Common.Dict.{lookup, put, string_eq}
use qbit_network.Merkle.{Bytes, bytes_eq}
use qbit_network.StateTrie.{Inclusion, init, compute_root, root, get_proof, verify_proof, set}
use qbit_network.StateTrie.Cache.{Call, run}
use qbit_network.StateTrie.Proofs.{get_proof-run}

abbrev tagged : Bytes → Bytes
tagged b = 7 ∷ b

abbrev nothing : String → Bytes
nothing s = []

abbrev calls : List Call
calls =
    Call.call_set "b" (1 ∷ [])
    ∷ Call.call_root
    ∷ Call.call_set "a" (2 ∷ [])
    ∷ Call.call_get_proof "a"
    ∷ Call.call_delete "b"
    ∷ []

abbrev filling : List Call
filling =
    Call.call_set "b" (1 ∷ [])
    ∷ Call.call_set "c" (3 ∷ [])
    ∷ Call.call_root
    ∷ Call.call_set "a" (2 ∷ [])
    ∷ []

b_is_set : lookup "b" (run tagged nothing filling init).entries ≡ some (1 ∷ [])
unfolding lookup init set put root compute_root bytes_eq
b_is_set = refl

get_proof-run_example :
    let t = run tagged nothing filling init in
    (p : Inclusion) × ((get_proof tagged nothing "b" t).0 ≡ some p)
    × (p.key ≡ "b")
    × (p.value ≡ 1 ∷ [])
    × (p.root ≡ compute_root tagged nothing t.entries)
    × (verify_proof tagged nothing p.key p.value p.proof p.root ≡ true)
get_proof-run_example = get_proof-run tagged nothing filling "b" (1 ∷ []) b_is_set
