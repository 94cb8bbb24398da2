-- ===== src/RateLimiter/Checked.antt =====
-- `check` of network/rate_limiter.py keeps the limiter sound.
use qbit_network.Common.{
  suc, String, true, Option, none, some, ◌≡◌, refl, arith, inl, inr, if◌then◌else◌, length, leb,
  Bool-cases,
}
use qbit_network.Common.Dict.{
  lookup, put, pop, contains, string_eq, lookup-put, lookup-pop, put-Distinct, pop-Distinct,
}
use qbit_network.Staking.{member, add_member}
use qbit_network.RateLimiter.{
  Floats, Bucket, Limiter, max_tracked, evict_one, refill, consume, track, check,
}
use qbit_network.RateLimiter.Entries.{
  All-put, All-pop, length-put_le, length-put_known, length-pop_known, All-lookup,
  member-add_member,
}
use qbit_network.RateLimiter.Kept.{
  FloatLaws, IsCapped, IsSound, put-IsSound, contains-put_self, room-IsSound,
}

module _ (F : Floats) where
  moved_logged :
      (l : Limiter F) (key x : String) (b : Bucket F)
      → IsSound F l
      → member x l.logged_keys ≡ true
      → contains x (put key b (pop key l.buckets)) ≡ true
  moved_logged l key x b s m = ground (
    arith,
    s.logged x,
    lookup-put x key b (pop key l.buckets),
    lookup-pop x key l.buckets s.distinct,
  )

  violation_logged :
      (key x : String) (b : Bucket F) (l : Limiter F)
      → IsSound F l
      → member x (add_member key l.logged_keys) ≡ true
      → contains x (put key b l.buckets) ≡ true
  violation_logged key x b l s m =
      ground
        (arith, s.logged x, member-add_member x key l.logged_keys, lookup-put x key b l.buckets)

  violation-IsSound :
      (key : String) (b : Bucket F) (l : Limiter F)
      → IsCapped F l.burst b
      → contains key l.buckets ≡ true
      → IsSound F l
      → IsSound F
          (record l { buckets = put key b l.buckets; logged_keys = add_member key l.logged_keys })
  violation-IsSound key b l c held s = record {
    distinct = put-Distinct key b l.buckets s.distinct;
    few = omega (arith, s.few, length-put_known key b l.buckets held);
    capped = All-put (λ e. IsCapped F l.burst e.1) key b l.buckets (λ j. c) s.capped;
    logged = λ x m. violation_logged key x b l s m;
  }

  module _ (laws : FloatLaws F) where
    track-IsSound :
        (key : String) (created : F.Float) (o : Option (Bucket F)) (l : Limiter F)
        → lookup key l.buckets ≡ o
        → IsSound F l
        → IsSound F (track F key created o l).1
          × IsCapped F l.burst (track F key created o l).0
          × (contains key (track F key created o l).1.buckets ≡ true)
          × ((track F key created o l).1.burst ≡ l.burst)
    unfolding track
    track-IsSound key created none l e s =
        let (sound, room, same) = room-IsSound F l s in
        let limiter = if leb max_tracked (length l.buckets) then evict_one F l else l in
        let b : Bucket F = record { tokens = l.burst; last_refill = created; violations = 0 } in
        (
          put-IsSound F limiter key b sound (rw same (laws.irreflexive l.burst))
              (omega (arith, room, length-put_le key b limiter.buckets)),
          laws.irreflexive l.burst,
          contains-put_self F key b limiter.buckets,
          same,
        )
    track-IsSound key created (some b) l e s =
        let held : contains key l.buckets ≡ true = rw e refl in
        let c = All-lookup (IsCapped F l.burst) key b l.buckets s.capped e in
        (
          record {
            distinct =
                put-Distinct key b (pop key l.buckets) (pop-Distinct key l.buckets s.distinct);
            few = omega (
              arith,
              s.few,
              length-put_le key b (pop key l.buckets),
              length-pop_known key l.buckets held,
            );
            capped =
                All-put (λ x. IsCapped F l.burst x.1) key b (pop key l.buckets) (λ j. c)
                  (All-pop (λ x. IsCapped F l.burst x.1) key l.buckets s.capped);
            logged = λ x m. moved_logged l key x b s m;
          },
          c,
          contains-put_self F key b (pop key l.buckets),
          refl,
        )

    refill-IsCapped :
        (now : F.Float) (l : Limiter F) (b : Bucket F)
        → IsCapped F l.burst b
        → IsCapped F l.burst (refill F now l b)
    unfolding refill
    refill-IsCapped now l b h =
        let sum = F.add b.tokens (F.mul (F.sub now b.last_refill) l.rate) in
        elim (Bool-cases (F.lt F.zero (F.sub now b.last_refill))) [
          | inr none_passed ↦ rw none_passed h
          | inl passed ↦ rw passed (elim (Bool-cases (F.lt sum l.burst)) [
            | inl below ↦ rw below (laws.asymmetric sum l.burst below)
            | inr above ↦ rw above (laws.irreflexive l.burst)
          ])
        ]

    consume-IsSound :
        (key : String) (b : Bucket F) (l : Limiter F)
        → IsCapped F l.burst b
        → contains key l.buckets ≡ true
        → IsSound F l
        → IsSound F (consume F key b l).1
    unfolding consume
    consume-IsSound key b l c held s = elim (Bool-cases (F.lt b.tokens F.one)) [
      | inr enough ↦ rw enough (
          put-IsSound F l key _ s (laws.less_one b.tokens l.burst c)
            (omega (arith, s.few, length-put_known key _ l.buckets held)))
      | inl too_few ↦
          rw too_few (violation-IsSound key (record b { violations = suc b.violations }) l c held s)
    ]

    pub check-IsSound :
        (key : String) (now created : F.Float) (l : Limiter F)
        → IsSound F l
        → IsSound F (check F key now created l).1
    unfolding check
    check-IsSound key now created l s =
        let (sound, c, held, same) = track-IsSound key created (lookup key l.buckets) l refl s in
        let (b, l') = track F key created (lookup key l.buckets) l in
        consume-IsSound key (refill F now l' b) l' (refill-IsCapped now l' b (rw same c)) held sound
