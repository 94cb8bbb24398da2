-- ===== src/StateTrie/Cache.antt =====
-- The cached root of core/state_tree.py: whatever the trie went through, `root` is the root of its
-- entries.
use qbit_network.Common.{
  String, true, false, List, [], ◌∷◌, Option, none, some, ◌≡◌, inl, inr, arith, Bool-cases,
}
use qbit_network.Common.Dict.{lookup, put, pop, contains, string_eq}
use qbit_network.Merkle.{Bytes}
use qbit_network.StateTrie.{
  Entries, StateTrie, init, changes, set, delete, restore, compute_root, root, prove, get_proof,
}

-- The calls that a caller can make.
pub data Call : Type 0 where
  call_set : String → Bytes → Call
  call_delete : String → Call
  call_restore : Entries → Call
  call_root : Call
  call_get_proof : String → Call

module _ (sha3_256 : Bytes → Bytes) (encode : String → Bytes) where
  abbrev pub step : Call → StateTrie → StateTrie
  step (call_set key value) t = set key value t
  step (call_delete key) t = delete key t
  step (call_restore entries) t = restore entries t
  step call_root t = (root sha3_256 encode t).1
  step (call_get_proof key) t = (get_proof sha3_256 encode key t).1

  abbrev pub run : List Call → StateTrie → StateTrie
  run [] t = t
  run (c ∷ calls) t = run calls (step c t)

  -- A cache that is not marked dirty holds the root of the entries.
  abbrev pub IsFresh : StateTrie → Type 0
  IsFresh t = t.dirty ≡ false → t.cached_root ≡ some (compute_root sha3_256 encode t.entries)

  pub root-IsFresh :
      (t : StateTrie)
      → IsFresh t
      → ((root sha3_256 encode t).0 ≡ compute_root sha3_256 encode t.entries)
        × ((root sha3_256 encode t).1.entries ≡ t.entries)
        × IsFresh (root sha3_256 encode t).1
  unfolding root
  root-IsFresh t h = elim (Bool-cases t.dirty) [
    | inl dirty ↦ ground (arith, dirty)
    | inr clean ↦ ground (arith, clean, h clean)
  ]

  pub dirty-IsFresh :
      (entries : Entries) (cached : Option Bytes)
      → IsFresh (record { entries = entries; dirty = true; cached_root = cached })
  dirty-IsFresh entries cached h = cc

  set-IsFresh :
      (key : String) (value : Bytes) (t : StateTrie) → IsFresh t → IsFresh (set key value t)
  unfolding set
  set-IsFresh key value t h = elim (Bool-cases (changes (lookup key t.entries) value)) [
    | inl changed ↦ rw changed (dirty-IsFresh (put key value t.entries) t.cached_root)
    | inr kept ↦ rw kept h
  ]

  delete-IsFresh : (key : String) (t : StateTrie) → IsFresh t → IsFresh (delete key t)
  unfolding delete
  delete-IsFresh key t h = elim (Bool-cases (contains key t.entries)) [
    | inl changed ↦ rw changed (dirty-IsFresh (pop key t.entries) t.cached_root)
    | inr kept ↦ rw kept h
  ]

  prove-IsFresh :
      (key : String) (o : Option Bytes) (t : StateTrie)
      → IsFresh t
      → IsFresh (prove sha3_256 encode key o t).1
  prove-IsFresh key none t h = h
  prove-IsFresh key (some value) t h = (root-IsFresh t h).2

  get_proof-IsFresh :
      (key : String) (t : StateTrie) → IsFresh t → IsFresh (get_proof sha3_256 encode key t).1
  unfolding get_proof
  get_proof-IsFresh key t h = prove-IsFresh key (lookup key t.entries) t h

  step-IsFresh : (c : Call) (t : StateTrie) → IsFresh t → IsFresh (step c t)
  unfolding restore
  step-IsFresh (call_set key value) t h = set-IsFresh key value t h
  step-IsFresh (call_delete key) t h = delete-IsFresh key t h
  step-IsFresh (call_restore entries) t h = dirty-IsFresh entries t.cached_root
  step-IsFresh call_root t h = (root-IsFresh t h).2
  step-IsFresh (call_get_proof key) t h = get_proof-IsFresh key t h

  pub run-IsFresh : (calls : List Call) (t : StateTrie) → IsFresh t → IsFresh (run calls t)
  run-IsFresh [] t h = h
  run-IsFresh (c ∷ calls) t h = run-IsFresh calls (step c t) (step-IsFresh c t h)

-- After any sequence of calls on a new trie, `root` returns the root computed from the entries that
-- the trie then holds, and changes no entry.
pub root-run :
    (sha3_256 : Bytes → Bytes) (encode : String → Bytes) (calls : List Call)
    → let t = run sha3_256 encode calls init in
      ((root sha3_256 encode t).0 ≡ compute_root sha3_256 encode t.entries)
      × ((root sha3_256 encode t).1.entries ≡ t.entries)
unfolding init
root-run sha3_256 encode calls =
    let r =
      root-IsFresh sha3_256 encode (run sha3_256 encode calls init)
        (run-IsFresh sha3_256 encode calls init (dirty-IsFresh sha3_256 encode [] none)) in
    (r.0, r.1)
