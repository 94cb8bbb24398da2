-- ===== src/Receipts/Examples.antt =====
-- The receipts of a block of two transfers over a toy hash function.
use qbit_network.Common.{
  String, true, false, List, [], ◌∷◌, Option, some, ◌≡◌, ◌≢◌, ◌≤◌, refl, arith, eq_iff, str_eq,
}
use qbit_network.Common.Dict.{lookup, put, pop, string_eq, nat_eq}
use qbit_network.Common.Exec.{ok}
use qbit_network.Common.Hex.{from_hex, to_hex}
use qbit_network.Common.Int.{ℤ, pos}
use qbit_network.Header.{from_hex_all}
use qbit_network.Merkle.{
  Bytes, ProofPath, merkle_root, root_loop, hash_leaves, next_layer, merkle_node,
}
use qbit_network.Merkle.Octets.{IsOctets, parse_path}
use qbit_network.Staking.{member}
use qbit_network.Receipts.{
  Event, Receipt, make, build_event, receipt_hash, leaves, receipts_root, verify_receipt_proof,
}
use qbit_network.Receipts.Record.{
  Receipts, Entry, type_of, index_events, record_receipt, receipt_for, generate, ReceiptBlock,
  ReceiptProof, get_receipt_proof, rollback_receipts, remove_receipts, unindex_events, remove_text,
}
use qbit_network.Receipts.Generated.{IsReceiptData}
use qbit_network.Receipts.Inclusion.{get_receipt_proof-generate}
use qbit_network.Receipts.Query.{
  Filters, get_events, clamp, collect, candidates, add_events, is_skipped, sender_of,
}
use qbit_network.Receipts.Filters.{AreMatches, get_events-AreMatches}
use qbit_network.Transaction.{text, int}

abbrev transfer_event : String → Event
transfer_event sender =
    build_event "Transfer" (("sender", text sender) ∷ ("amount", int (pos 5)) ∷ [])

abbrev first_entry : Entry
first_entry = record { tx_index = 0; tx_id = "aa"; fee = 3; events = transfer_event "x" ∷ [] }

abbrev second_entry : Entry
second_entry = record { tx_index = 1; tx_id = "bb"; fee = 4; events = transfer_event "y" ∷ [] }

abbrev entries : List Entry
entries = first_entry ∷ second_entry ∷ []

abbrev empty : Receipts
empty = record { receipts = []; events_by_type = []; events_by_block = [] }

abbrev toy_json : Receipt → Bytes
toy_json r = 200 ∷ []

abbrev toy_hash : Bytes → Bytes
toy_hash b = 9 ∷ []

toy_hash-IsOctets : (x : Bytes) → IsOctets (toy_hash x)
toy_hash-IsOctets x = (omega arith, tt)

abbrev block : ReceiptBlock
block = record { tx_ids = "aa" ∷ "bb" ∷ []; receipts_root = 48 ∷ 57 ∷ [] }

abbrev blocks : ℤ → Option ReceiptBlock
blocks i = some block

abbrev made : List Receipt
made = receipt_for 7 [] first_entry ∷ receipt_for 7 [] second_entry ∷ []

returned : (generate 7 [] entries empty).0 ≡ ok made
unfolding generate make receipt_for member record_receipt
returned = refl

rooted : receipts_root toy_json toy_hash made ≡ some (48 ∷ 57 ∷ [])
unfolding receipts_root leaves from_hex_all from_hex receipt_hash to_hex merkle_root root_loop
    hash_leaves next_layer merkle_node
rooted = refl

apart : (a b : String) → str_eq a b ≡ false → a ≢ b
apart a b h e = cc ((eq_iff a b).1 e)

listed : IsReceiptData 0 entries
unfolding member
listed = (refl, apart "aa" "" refl, refl, (refl, apart "bb" "" refl, refl, tt))

get_receipt_proof-generate_example :
    (p : ReceiptProof) × (path : ProofPath) × (get_receipt_proof toy_json toy_hash blocks "bb"
        (generate 7 [] entries empty).1
      ≡ some p)
    × (p.receipt ≡ receipt_for 7 [] second_entry)
    × (parse_path p.proof ≡ some path)
    × (verify_receipt_proof toy_json toy_hash
          (receipt_hash toy_json toy_hash p.receipt)
          path
          p.receipts_root
        ≡ some true)
get_receipt_proof-generate_example =
    get_receipt_proof-generate toy_json toy_hash blocks 7 [] entries empty made block 1 second_entry
      toy_hash-IsOctets listed returned refl refl rooted refl

abbrev after : Receipts
after = (generate 7 [] entries empty).1

abbrev by_y : Filters
by_y = record { event_type = "Transfer"; block_index = some 7; sender = "y" }

found_one :
    get_events by_y (pos 20) after
    ≡ record { tx_id = "bb"; block_index = pos 7; event = transfer_event "y" } ∷ []
unfolding get_events collect candidates add_events is_skipped sender_of type_of generate make
    receipt_for member record_receipt index_events lookup put
found_one = refl

get_events-AreMatches_example :
    AreMatches by_y after.receipts (clamp (pos 20)) (get_events by_y (pos 20) after)
    × (clamp (pos 20) ≤ 100)
get_events-AreMatches_example = get_events-AreMatches by_y (pos 20) after

-- A rollback of the block takes its receipts away; the keys of the events stay, with empty lists.
rolled_back :
    rollback_receipts 7 ("aa" ∷ "bb" ∷ []) after
    ≡ record { receipts = []; events_by_type = ("Transfer", []) ∷ []; events_by_block = [] }
unfolding rollback_receipts remove_receipts unindex_events remove_text type_of generate make
    receipt_for member record_receipt index_events lookup put pop
rolled_back = refl
