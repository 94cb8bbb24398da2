-- ===== src/Receipts/Query.antt =====
-- `get_events` of qbit_network/core/receipt_ops.py.
use qbit_network.Common.{
  ℕ, String, Bool, false, not, ◌&&◌, ◌||◌, List, [], ◌∷◌, ◌++◌, Option, none, some, if◌then◌else◌,
  str_eq, map, length, leb,
}
use qbit_network.Common.Dict.{Dict, lookup, get_or, contains, string_eq, nat_eq}
use qbit_network.Common.Int.{ℤ, pos, eqb_ℤ, min_ℤ, max_ℤ, pos_part}
use qbit_network.Receipts.{Event, Receipt}
use qbit_network.Receipts.Record.{Receipts, type_of}
use qbit_network.Transaction.{Value, value_text}

pub record Found : Type 0 where
  pub tx_id : String
  pub block_index : ℤ
  pub event : Event

-- What a caller asks for; an empty text filters nothing.
pub record Filters : Type 0 where
  pub event_type : String
  pub block_index : Option ℕ
  pub sender : String

abbrev pub first_found : Option Value → Option Value → Option Value
first_found none b = b
first_found (some v) b = some v

-- `ev.get("sender", ev.get("staker", ev.get("delegator", ev.get("address", ""))))`, as a text; what
-- is no text equals no sender.
unfoldable pub sender_of : Event → String
sender_of ev = value_text (
    first_found (lookup "sender" ev) (
      first_found (lookup "staker" ev) (first_found (lookup "delegator" ev) (lookup "address" ev))))

-- The event is passed over.
unfoldable pub is_skipped : Filters → Event → Bool
is_skipped f ev =
    not (str_eq f.event_type "") && not (str_eq (type_of ev) f.event_type)
    || not (str_eq f.sender "") && not (str_eq (sender_of ev) f.sender)

-- The loop over the events of a receipt.
unfoldable pub add_events : Filters → ℕ → String → ℤ → List Event → List Found → List Found
add_events f limit tx_id block_index [] results = results
add_events f limit tx_id block_index (ev ∷ evs) results =
    let found : Found = record { tx_id = tx_id; block_index = block_index; event = ev } in
    let next = if is_skipped f ev then results else results ++ found ∷ [] in
    let rest = add_events f limit tx_id block_index evs next in
    if leb limit (length results) then results else rest

-- `block_index is not None and receipt.block_index != block_index`
abbrev pub is_elsewhere : Option ℕ → Receipt → Bool
is_elsewhere none r = false
is_elsewhere (some b) r = not (eqb_ℤ r.block_index (pos b))

abbrev pub add_receipt : Filters → ℕ → String → Option Receipt → List Found → List Found
add_receipt f limit tx_id none results = results
add_receipt f limit tx_id (some r) results =
    if is_elsewhere f.block_index r
    then results
    else add_events f limit tx_id r.block_index r.events results

-- The loop over the candidates.
unfoldable pub collect : Filters → ℕ → Dict String Receipt → List String → List Found → List Found
collect f limit receipts [] results = results
collect f limit receipts (tx_id ∷ ids) results =
    let next = add_receipt f limit tx_id (lookup tx_id receipts) results in
    let rest = collect f limit receipts ids next in
    if leb limit (length results) then results else rest

abbrev pub by_block : Option ℕ → Receipts → List String
by_block none s = map (λ e. e.0) s.receipts
by_block (some b) s =
    if contains b s.events_by_block
    then get_or b [] s.events_by_block
    else map (λ e. e.0) s.receipts

-- "Determine candidate tx_ids based on filters"
unfoldable pub candidates : Filters → Receipts → List String
candidates f s =
    if not (str_eq f.event_type "") && contains f.event_type s.events_by_type
    then get_or f.event_type [] s.events_by_type
    else by_block f.block_index s

-- `max(1, min(limit, 100))`
abbrev pub clamp : ℤ → ℕ
clamp limit = pos_part (max_ℤ (pos 1) (min_ℤ limit (pos 100)))

unfoldable pub get_events : Filters → ℤ → Receipts → List Found
get_events f limit s = collect f (clamp limit) s.receipts (candidates f s) []
