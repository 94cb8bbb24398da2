-- ===== src/Common/Sorted/Ascending.antt =====
-- Texts in ascending order: what Python's `sorted` returns.
use Prim.Native.Nat.{Ordering}
use Prim.Native.String.compare
use Prim.Native.String.{String, compare}
use mathlib.Core.Bool.{Bool, true, false}
use mathlib.Core.List.{List, [], ◌∷◌}
use mathlib.Core.Logic.{◌⊎◌, inl, inr}
use mathlib.Core.Path.{◌≡◌, refl}
use native.Mathlib.Omega.{arith}
use qbit_network.Common.Lists.{All}
use qbit_network.Common.Sorted.{insert_text, sorted}

-- `s <= t`
abbrev pub text_le : String → String → Bool
text_le s t = elim (compare s t) [ Ordering.gt ↦ false | _ ↦ true ]

pub text_le_total : (s t : String) → compare s t ≡ Ordering.gt → text_le t s ≡ true
text_le_total String.[] String.[] h = ground (arith, compare.nil-nil)
text_le_total String.[] (String.◌∷◌ d t) h = ground (arith, compare.nil-cons d t)
text_le_total (String.◌∷◌ c s) String.[] h = ground (arith, compare.nil-cons c s)
text_le_total (String.◌∷◌ c s) (String.◌∷◌ d t) h =
    ground (arith, compare.cons-cons c d s t, compare.cons-cons d c t s, text_le_total s t)

pub text_le_trans : (s t u : String) → text_le s t ≡ true → text_le t u ≡ true → text_le s u ≡ true
text_le_trans String.[] t String.[] h g = ground (arith, compare.nil-nil)
text_le_trans String.[] t (String.◌∷◌ e u) h g = ground (arith, compare.nil-cons e u)
text_le_trans (String.◌∷◌ c s) String.[] u h g = ground (arith, compare.cons-nil c s)
text_le_trans (String.◌∷◌ c s) (String.◌∷◌ d t) String.[] h g = ground (arith, compare.cons-nil d t)
text_le_trans (String.◌∷◌ c s) (String.◌∷◌ d t) (String.◌∷◌ e u) h g = ground (
  arith,
  compare.cons-cons c d s t,
  compare.cons-cons d e t u,
  compare.cons-cons c e s u,
  text_le_trans s t u,
)

abbrev pub IsAscending : List String → Type 0
IsAscending [] = Unit
IsAscending (s ∷ l) = All (λ t. text_le s t ≡ true) l × IsAscending l

All-insert_text :
    (s a : String) (l : List String)
    → text_le s a ≡ true
    → All (λ t. text_le s t ≡ true) l
    → All (λ t. text_le s t ≡ true) (insert_text a l)
unfolding insert_text
All-insert_text s a [] h g = (h, tt)
All-insert_text s a (b ∷ l) h g = ground (arith, All-insert_text s a l h g.1)

All-text_le :
    (s t : String) (l : List String)
    → text_le s t ≡ true
    → All (λ u. text_le t u ≡ true) l
    → All (λ u. text_le s u ≡ true) l
All-text_le s t [] h g = tt
All-text_le s t (u ∷ l) h g = (text_le_trans s t u h g.0, All-text_le s t l h g.1)

insert_text-IsAscending :
    (a : String) (l : List String) → IsAscending l → IsAscending (insert_text a l)
unfolding insert_text
insert_text-IsAscending a [] h = (tt, tt)
insert_text-IsAscending a (b ∷ l) h = ground (
  arith,
  text_le_total a b,
  All-insert_text b a l,
  All-text_le a b l,
  insert_text-IsAscending a l h.1,
)

pub sorted-IsAscending : (l : List String) → IsAscending (sorted l)
unfolding sorted
sorted-IsAscending [] = tt
sorted-IsAscending (a ∷ l) = insert_text-IsAscending a (sorted l) (sorted-IsAscending l)

-- `s in l`
abbrev pub Holds : String → List String → Type 0
Holds s [] = ⊥
Holds s (t ∷ l) = (t ≡ s) ⊎ Holds s l

insert_text-Holds_self : (a : String) (l : List String) → Holds a (insert_text a l)
unfolding insert_text
insert_text-Holds_self a [] = inl refl
insert_text-Holds_self a (b ∷ l) = ground (arith, insert_text-Holds_self a l)

insert_text-Holds : (s a : String) (l : List String) → Holds s l → Holds s (insert_text a l)
unfolding insert_text
insert_text-Holds s a [] h = elim h [ ]
insert_text-Holds s a (b ∷ l) h = ground (arith, insert_text-Holds s a l)

pub sorted-Holds : (s : String) (l : List String) → Holds s l → Holds s (sorted l)
unfolding sorted
sorted-Holds s [] h = elim h [ ]
sorted-Holds s (a ∷ l) (inl e) = rw e (insert_text-Holds_self s (sorted l))
sorted-Holds s (a ∷ l) (inr h) = insert_text-Holds s a (sorted l) (sorted-Holds s l h)

insert_text-Holds_back :
    (s a : String) (l : List String) → Holds s (insert_text a l) → (a ≡ s) ⊎ Holds s l
unfolding insert_text
insert_text-Holds_back s a [] h = h
insert_text-Holds_back s a (b ∷ l) h = ground (arith, insert_text-Holds_back s a l)

pub sorted-Holds_back : (s : String) (l : List String) → Holds s (sorted l) → Holds s l
unfolding sorted
sorted-Holds_back s [] h = elim h [ ]
sorted-Holds_back s (a ∷ l) h = elim (insert_text-Holds_back s a (sorted l) h) [
  | inl e ↦ inl e
  | inr there ↦ inr (sorted-Holds_back s l there)
]
