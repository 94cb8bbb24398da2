-- ===== src/Receipts/Filters.antt =====
-- What `get_events` of core/receipt_ops.py returns.
use qbit_network.Common.{
  ℕ, ◌≤◌, String, Bool, true, false, not, ◌&&◌, ◌||◌, List, [], ◌∷◌, ◌++◌, Option, none, some, ◌≡◌,
  refl, arith, ◌⊎◌, inl, inr, if◌then◌else◌, str_eq, eq_iff, length, leb, All, Bool-cases,
  not-false, length-append,
}
use qbit_network.Common.Dict.{Dict, lookup, string_eq}
use qbit_network.Common.Int.{ℤ, pos, eqb_ℤ→eq}
use qbit_network.Receipts.{Event, Receipt}
use qbit_network.Receipts.Record.{Receipts, type_of}
use qbit_network.Receipts.Query.{
  Found, Filters, sender_of, is_skipped, add_events, is_elsewhere, add_receipt, collect, candidates,
  clamp, get_events,
}

-- `ev in evs`
abbrev pub IsIn : Event → List Event → Type 0
IsIn ev [] = ⊥
IsIn ev (e ∷ evs) = (e ≡ ev) ⊎ IsIn ev evs

abbrev pub IsOfBlock : Option ℕ → ℤ → Type 0
IsOfBlock none block_index = Unit {0}
IsOfBlock (some b) block_index = block_index ≡ pos b

-- An event of a stored receipt that passes every filter.
pub record IsMatch (f : Filters) (receipts : Dict String Receipt) (r : Found) : Type 0 where
  pub receipt : Receipt
  pub stored : lookup r.tx_id receipts ≡ some receipt
  pub listed : IsIn r.event receipt.events
  pub same_block : r.block_index ≡ receipt.block_index
  pub block : IsOfBlock f.block_index r.block_index
  pub event_type : (f.event_type ≡ "") ⊎ (type_of r.event ≡ f.event_type)
  pub sender : (f.sender ≡ "") ⊎ (sender_of r.event ≡ f.sender)

abbrev pub AreMatches : Filters → Dict String Receipt → ℕ → List Found → Type 0
AreMatches f receipts limit results = All (IsMatch f receipts) results × (length results ≤ limit)

All-append_one :
    {A : Type 0} (P : A → Type 0) (l : List A) (a : A) → All P l → P a → All P (l ++ a ∷ [])
All-append_one P [] a h p = (p, tt)
All-append_one P (x ∷ l) a h p = (h.0, All-append_one P l a h.1 p)

passes : (a b : String) → (not (str_eq a "") && not (str_eq b a)) ≡ false → (a ≡ "") ⊎ (b ≡ a)
passes a b h = elim (Bool-cases (str_eq a "")) [
  | inl empty ↦ inl ((eq_iff a "").0 empty)
  | inr given ↦ inr (ground (arith, eq_iff b a))
]

or-false : (a b : Bool) → (a || b) ≡ false → (a ≡ false) × (b ≡ false)
or-false false false h = (refl, refl)
or-false false true h = cc
or-false true b h = cc

module _ (f : Filters) (receipts : Dict String Receipt) (limit : ℕ) where
  step_AreMatches :
      (tx_id : String) (r : Receipt) (ev : Event) (results : List Found)
      → lookup tx_id receipts ≡ some r
      → IsOfBlock f.block_index r.block_index
      → IsIn ev r.events
      → leb limit (length results) ≡ false
      → AreMatches f receipts limit results
      → AreMatches f receipts limit (
          if is_skipped f ev
          then results
          else results ++ record { tx_id = tx_id; block_index = r.block_index; event = ev } ∷ [])
  unfolding is_skipped
  step_AreMatches tx_id r ev results stored block listed room h =
      elim (Bool-cases (is_skipped f ev)) [
        | inl skipped ↦ rw skipped h
        | inr taken ↦
            (let (of_type, of_sender) = or-false _ _ taken in
              let found : Found = record {
                tx_id = tx_id;
                block_index = r.block_index;
                event = ev;
              } in
              rw taken (
                All-append_one (IsMatch f receipts) results found h.0 (record {
                  receipt = r;
                  stored = stored;
                  listed = listed;
                  same_block = refl;
                  block = block;
                  event_type = passes f.event_type (type_of ev) of_type;
                  sender = passes f.sender (sender_of ev) of_sender;
                }),
                ground (arith, length-append results (found ∷ [])),
              ))
      ]

  add_events-AreMatches :
      (tx_id : String) (r : Receipt) (evs : List Event) (results : List Found)
      → lookup tx_id receipts ≡ some r
      → IsOfBlock f.block_index r.block_index
      → ((ev : Event) → IsIn ev evs → IsIn ev r.events)
      → AreMatches f receipts limit results
      → AreMatches f receipts limit (add_events f limit tx_id r.block_index evs results)
  unfolding add_events
  add_events-AreMatches tx_id r [] results stored block within h = h
  add_events-AreMatches tx_id r (ev ∷ evs) results stored block within h =
      elim (Bool-cases (leb limit (length results))) [
        | inl full ↦ rw full h
        | inr room ↦ rw room (
            add_events-AreMatches tx_id r evs _ stored block (λ e m. within e (inr m))
              (step_AreMatches tx_id r ev results stored block (within ev (inl refl)) room h))
      ]

  not_elsewhere :
      (b : Option ℕ) (r : Receipt) → is_elsewhere b r ≡ false → IsOfBlock b r.block_index
  not_elsewhere none r h = tt
  not_elsewhere (some b) r h = eqb_ℤ→eq r.block_index (pos b) (not-false _ h)

  add_receipt-AreMatches :
      (tx_id : String) (o : Option Receipt) (results : List Found)
      → lookup tx_id receipts ≡ o
      → AreMatches f receipts limit results
      → AreMatches f receipts limit (add_receipt f limit tx_id o results)
  add_receipt-AreMatches tx_id none results e h = h
  add_receipt-AreMatches tx_id (some r) results e h =
      elim (Bool-cases (is_elsewhere f.block_index r)) [
        | inl away ↦ rw away h
        | inr here ↦ rw here (
            add_events-AreMatches tx_id r r.events results e (not_elsewhere f.block_index r here)
              (λ ev m. m) h)
      ]

  collect-AreMatches :
      (ids : List String) (results : List Found)
      → AreMatches f receipts limit results
      → AreMatches f receipts limit (collect f limit receipts ids results)
  unfolding collect
  collect-AreMatches [] results h = h
  collect-AreMatches (tx_id ∷ ids) results h = elim (Bool-cases (leb limit (length results))) [
    | inl full ↦ rw full h
    | inr room ↦ rw room (
        collect-AreMatches ids (add_receipt f limit tx_id (lookup tx_id receipts) results)
          (add_receipt-AreMatches tx_id (lookup tx_id receipts) results refl h))
  ]

clamp_bounds : (limit : ℤ) → (1 ≤ clamp limit) × (clamp limit ≤ 100)
clamp_bounds limit = ground arith

-- Whatever the indices hold, every event that get_events returns is one of a stored receipt, with the
-- block of this receipt, and of the block, type and sender asked for; and there are at most as many as
-- asked for, and at most 100 (one, if fewer than one are asked for).
pub get_events-AreMatches :
    (f : Filters) (limit : ℤ) (s : Receipts)
    → AreMatches f s.receipts (clamp limit) (get_events f limit s) × (clamp limit ≤ 100)
unfolding get_events
get_events-AreMatches f limit s = (
  collect-AreMatches f s.receipts (clamp limit) (candidates f s) [] (tt, omega arith),
  (clamp_bounds limit).1,
)
