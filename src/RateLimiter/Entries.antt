-- ===== src/RateLimiter/Entries.antt =====
-- The dict and the set of a limiter (network/rate_limiter.py): sizes and entries.
use mathlib.Core.Path.{subst}
use qbit_network.Common.{
  ◌+◌, ◌≤◌, String, true, false, ◌||◌, List, [], ◌∷◌, some, ◌≡◌, arith, inl, inr, if◌then◌else◌,
  length, All, str_eq, eq_iff, Bool-cases,
}
use qbit_network.Common.Dict.{Dict, lookup, put, pop, contains, string_eq}
use qbit_network.Staking.{member, add_member, discard}

module _ {V : Type 0} where
  pub All-put :
      (P : String × V → Type 0) (k : String) (v : V) (d : Dict String V)
      → ((j : String) → P (j, v))
      → All P d
      → All P (put k v d)
  unfolding put
  All-put P k v [] p h = (p k, tt)
  All-put P k v ((j, w) ∷ d) p h = elim (Bool-cases (str_eq j k)) [
    | inl same ↦ rw same (p j, h.1)
    | inr other ↦ rw other (h.0, All-put P k v d p h.1)
  ]

  pub All-pop :
      (P : String × V → Type 0) (k : String) (d : Dict String V) → All P d → All P (pop k d)
  unfolding pop
  All-pop P k [] h = tt
  All-pop P k ((j, w) ∷ d) h = ground (arith, All-pop P k d h.1)

  pub length-put_le : (k : String) (v : V) (d : Dict String V) → length (put k v d) ≤ length d + 1
  unfolding put
  length-put_le k v [] = omega arith
  length-put_le k v ((j, w) ∷ d) = ground (arith, length-put_le k v d)

  pub length-put_known :
      (k : String) (v : V) (d : Dict String V) → contains k d ≡ true → length (put k v d) ≡ length d
  unfolding put lookup
  length-put_known k v [] h = cc
  length-put_known k v ((j, w) ∷ d) h = ground (arith, length-put_known k v d)

  pub length-pop_le : (k : String) (d : Dict String V) → length (pop k d) ≤ length d
  unfolding pop
  length-pop_le k [] = omega arith
  length-pop_le k ((j, w) ∷ d) = ground (arith, length-pop_le k d)

  pub length-pop_known :
      (k : String) (d : Dict String V) → contains k d ≡ true → length (pop k d) + 1 ≡ length d
  unfolding pop lookup
  length-pop_known k [] h = cc
  length-pop_known k ((j, w) ∷ d) h = ground (arith, length-pop_known k d)

  pub All-lookup :
      (P : V → Type 0) (k : String) (v : V) (d : Dict String V)
      → All (λ e. P e.1) d
      → lookup k d ≡ some v
      → P v
  unfolding lookup
  All-lookup P k v [] h e = cc
  All-lookup P k v ((j, w) ∷ d) h e = elim (Bool-cases (str_eq j k)) [
    | inl same ↦ (let here : w ≡ v = cc (rw same at e) in subst P here h.0)
    | inr other ↦ All-lookup P k v d h.1 (rw other at e)
  ]

pub member-discard :
    (x k : String) (l : List String)
    → member x (discard k l) ≡ (if str_eq k x then false else member x l)
unfolding member discard
member-discard x k [] = ground arith
member-discard x k (y ∷ l) =
    ground (arith, eq_iff y k, eq_iff y x, eq_iff k x, member-discard x k l)

pub member-add_member :
    (x k : String) (l : List String) → member x (add_member k l) ≡ (str_eq k x || member x l)
unfolding add_member member
member-add_member x k l = ground (arith, eq_iff k x)
