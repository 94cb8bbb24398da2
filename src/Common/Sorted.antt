-- ===== src/Common/Sorted.antt =====
-- Python's `sorted` on texts.
pub mod Ascending
use Prim.Native.Nat.{Ordering}
use Prim.Native.String.{String, compare}
use mathlib.Core.List.{List, [], ◌∷◌}

unfoldable pub insert_text : String → List String → List String
insert_text a [] = a ∷ []
insert_text a (b ∷ l) =
    let rest = insert_text a l in elim (compare a b) [ Ordering.gt ↦ b ∷ rest | _ ↦ a ∷ b ∷ l ]

unfoldable pub sorted : List String → List String
sorted [] = []
sorted (a ∷ l) = insert_text a (sorted l)
