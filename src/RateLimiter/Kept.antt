-- ===== src/RateLimiter/Kept.antt =====
-- What a sound limiter of network/rate_limiter.py is; eviction and removal keep it sound.
use qbit_network.Common.{
  ◌+◌, ◌≤◌, ◌<◌, String, true, false, List, [], ◌∷◌, some, ◌≡◌, refl, arith, inl, inr,
  if◌then◌else◌, length, leb, All, eq_iff, Bool-cases, Option-cases,
}
use qbit_network.Common.Dict.{
  Dict, Distinct, lookup, put, pop, contains, string_eq, lookup-put, lookup-pop, put-Distinct,
  pop-Distinct,
}
use qbit_network.Staking.{member, discard}
use qbit_network.RateLimiter.{
  Floats, Bucket, Limiter, max_tracked, first_clean, victim, forget, evict_one, forget_all,
}
use qbit_network.RateLimiter.Entries.{
  All-put, All-pop, length-pop_le, length-pop_known, member-discard,
}

-- What is used of the comparison and the subtraction of floats.
pub record FloatLaws (F : Floats) : Type 0 where
  pub irreflexive : (a : F.Float) → F.lt a a ≡ false
  pub asymmetric : (a b : F.Float) → F.lt a b ≡ true → F.lt b a ≡ false
  pub less_one : (a b : F.Float) → F.lt b a ≡ false → F.lt b (F.sub a F.one) ≡ false

-- A bucket holds at most the burst.
abbrev pub IsCapped : (F : Floats) → F.Float → Bucket F → Type 0
IsCapped F burst b = F.lt burst b.tokens ≡ false

-- At most 10,000 keys are tracked, none twice; each bucket holds at most the burst; and only tracked
-- keys count as logged.
pub record IsSound (F : Floats) (l : Limiter F) : Type 0 where
  pub distinct : Distinct l.buckets
  pub few : length l.buckets ≤ max_tracked
  pub capped : All (λ e. IsCapped F l.burst e.1) l.buckets
  pub logged : (k : String) → member k l.logged_keys ≡ true → contains k l.buckets ≡ true

module _ (F : Floats) where
  contains-put :
      (x k : String) (b : Bucket F) (d : Dict String (Bucket F))
      → contains x d ≡ true
      → contains x (put k b d) ≡ true
  contains-put x k b d h = ground (arith, lookup-put x k b d)

  pub contains-put_self :
      (k : String) (b : Bucket F) (d : Dict String (Bucket F)) → contains k (put k b d) ≡ true
  contains-put_self k b d = ground (arith, eq_iff k k, lookup-put k k b d)

  pub put-IsSound :
      (l : Limiter F) (k : String) (b : Bucket F)
      → IsSound F l
      → IsCapped F l.burst b
      → length (put k b l.buckets) ≤ max_tracked
      → IsSound F (record l { buckets = put k b l.buckets })
  put-IsSound l k b s c few = record {
    distinct = put-Distinct k b l.buckets s.distinct;
    few = few;
    capped = All-put (λ e. IsCapped F l.burst e.1) k b l.buckets (λ j. c) s.capped;
    logged = λ x m. contains-put x k b l.buckets (s.logged x m);
  }

  forget_logged :
      (l : Limiter F) (k x : String)
      → IsSound F l
      → member x (discard k l.logged_keys) ≡ true
      → contains x (pop k l.buckets) ≡ true
  forget_logged l k x s m =
      ground
        (arith, member-discard x k l.logged_keys, s.logged x, lookup-pop x k l.buckets s.distinct)

  pub forget-IsSound : (k : String) (l : Limiter F) → IsSound F l → IsSound F (forget F k l)
  unfolding forget
  forget-IsSound k l s = record {
    distinct = pop-Distinct k l.buckets s.distinct;
    few = omega (arith, s.few, length-pop_le k l.buckets);
    capped = All-pop (λ e. IsCapped F l.burst e.1) k l.buckets s.capped;
    logged = λ x m. forget_logged l k x s m;
  }

  first_clean-contains :
      (d : Dict String (Bucket F)) (k : String) → first_clean F d ≡ some k → contains k d ≡ true
  unfolding first_clean lookup
  first_clean-contains [] k h = cc
  first_clean-contains ((j, b) ∷ d) k h = ground (arith, eq_iff j k, first_clean-contains d k)

  victim-contains :
      (d : Dict String (Bucket F))
      → 0 < length d
      → (k : String) × (victim F d ≡ some k) × (contains k d ≡ true)
  unfolding victim lookup
  victim-contains [] h = absurd (omega arith)
  victim-contains ((j, b) ∷ d) h = elim (Option-cases (first_clean F ((j, b) ∷ d))) [
    | inl dirty ↦ (j, rw dirty refl, ground (arith, eq_iff j j))
    | inr (k, clean) ↦ (k, rw clean refl, first_clean-contains ((j, b) ∷ d) k clean)
  ]

  -- Eviction makes room for one key.
  evict_one-IsSound :
      (l : Limiter F)
      → IsSound F l
      → 0 < length l.buckets
      → IsSound F (evict_one F l)
        × (length (evict_one F l).buckets + 1 ≤ max_tracked)
        × ((evict_one F l).burst ≡ l.burst)
  unfolding evict_one
  evict_one-IsSound l s some_key =
      let (k, found, held) = victim-contains l.buckets some_key in
      rw (found, evict_one)
        (
          forget-IsSound k l s,
          unfold forget in omega (arith, s.few, length-pop_known k l.buckets held),
          unfold forget in refl,
        )

  pub room-IsSound :
      (l : Limiter F)
      → IsSound F l
      → let room = if leb max_tracked (length l.buckets) then evict_one F l else l in
        IsSound F room × (length room.buckets + 1 ≤ max_tracked) × (room.burst ≡ l.burst)
  room-IsSound l s = elim (Bool-cases (leb max_tracked (length l.buckets))) [
    | inl full ↦ rw full (evict_one-IsSound l s (ground arith))
    | inr room ↦ rw room (s, ground arith, refl)
  ]

  pub forget_all-IsSound :
      (ks : List String) (l : Limiter F) → IsSound F l → IsSound F (forget_all F ks l)
  unfolding forget_all
  forget_all-IsSound [] l s = s
  forget_all-IsSound (k ∷ ks) l s = forget_all-IsSound ks (forget F k l) (forget-IsSound k l s)
