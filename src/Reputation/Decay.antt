-- ===== src/Reputation/Decay.antt =====
-- `decay` of network/reputation.py keeps the bans in step with the scores.
use qbit_network.Common.{
  String, true, false, List, [], ◌∷◌, Option, none, some, ◌≡◌, refl, arith, if◌then◌else◌, eq_iff,
  str_eq, ap, ◌∙◌, sym, Bool-cases, inl, inr,
}
use qbit_network.Common.Dict.{
  Dict, Distinct, lookup, pop, contains, is_some, string_eq, lookup-pop, pop-Distinct,
}
use qbit_network.Staking.{member}
use qbit_network.Reputation.{
  Floats, PeerReputation, ban_threshold, is_faded, decayed, to_remove, decay_scores, pop_all, decay,
}
use qbit_network.Reputation.Judged.{FloatLaws, IsJudged}

module _ (F : Floats) where
  -- Who is removed by `decay` is not banned.
  to_remove-unbanned :
      (banned : List String) (p : String) (d : Dict String F.Float)
      → member p (to_remove F banned d) ≡ true
      → member p banned ≡ false
  unfolding to_remove member
  to_remove-unbanned banned p [] m = cc
  to_remove-unbanned banned p ((q, score) ∷ d) m =
      ground (arith, eq_iff q p, to_remove-unbanned banned p d)

  -- A score after `decay`: as it was, for a peer that is removed, or decayed.
  abbrev kept : List String → String → F.Float → F.Float
  kept banned p score = if is_faded F banned p score then score else decayed F score

  kept_entry : List String → String → Option F.Float → Option F.Float
  kept_entry banned p none = none
  kept_entry banned p (some score) = some (kept banned p score)

  lookup-decay_scores :
      (banned : List String) (p : String) (d : Dict String F.Float)
      → lookup p (decay_scores F banned d) ≡ kept_entry banned p (lookup p d)
  unfolding decay_scores kept_entry lookup
  lookup-decay_scores banned p [] = refl
  lookup-decay_scores banned p ((q, score) ∷ d) = elim (Bool-cases (str_eq q p)) [
    | inl same ↦ rw same (ap (λ x. some (kept banned x score)) ((eq_iff q p).0 same))
    | inr other ↦ rw other (lookup-decay_scores banned p d)
  ]

  lookup-pop_all :
      (p : String) (gone : List String) (d : Dict String F.Float)
      → Distinct d
      → lookup p (pop_all F gone d) ≡ (if member p gone then none else lookup p d)
  unfolding pop_all member
  lookup-pop_all p [] d u = refl
  lookup-pop_all p (q ∷ gone) d u =
      ground (arith, lookup-pop_all p gone (pop q d) (pop-Distinct q d u), lookup-pop p q d u)

  pop_all-Distinct :
      (gone : List String) (d : Dict String F.Float) → Distinct d → Distinct (pop_all F gone d)
  unfolding pop_all
  pop_all-Distinct [] d u = u
  pop_all-Distinct (q ∷ gone) d u = pop_all-Distinct gone (pop q d) (pop-Distinct q d u)

  decay_scores-Distinct :
      (banned : List String) (d : Dict String F.Float)
      → Distinct d
      → Distinct (decay_scores F banned d)
  unfolding decay_scores kept_entry
  decay_scores-Distinct banned [] u = u
  decay_scores-Distinct banned ((q, score) ∷ d) u =
      (rw (lookup-decay_scores banned q d, u.0) refl, decay_scores-Distinct banned d u.1)

  is_some-kept_entry :
      (banned : List String) (p : String) (o : Option F.Float)
      → is_some (kept_entry banned p o) ≡ is_some o
  unfolding kept_entry
  is_some-kept_entry banned p none = refl
  is_some-kept_entry banned p (some score) = refl

  kept_above :
      (banned : List String) (p : String) (o : Option F.Float) (score : F.Float)
      → FloatLaws F
      → kept_entry banned p o ≡ some score
      → F.le score (ban_threshold F) ≡ true
      → (before : F.Float) × (o ≡ some before) × (F.le before (ban_threshold F) ≡ true)
  unfolding kept_entry
  kept_above banned p none score laws e h = absurd cc
  kept_above banned p (some before) score laws e h =
      (before, refl, grind (arith, laws.decay_above before))

  after_decay :
      (p : String) (r : PeerReputation F)
      → IsJudged F r
      → lookup p (decay F r).scores ≡ (
          if member p (to_remove F r.banned r.scores)
          then none
          else kept_entry r.banned p (lookup p r.scores))
  unfolding decay
  after_decay p r j =
      rw
        (
          lookup-pop_all p (to_remove F r.banned r.scores) (decay_scores F r.banned r.scores)
              (decay_scores-Distinct r.banned r.scores j.distinct),
          lookup-decay_scores r.banned p r.scores,
        )
        refl

  decay_tracked :
      (r : PeerReputation F)
      → IsJudged F r
      → (p : String) → member p r.banned ≡ true
      → contains p (decay F r).scores ≡ true
  decay_tracked r j p m = ground (
    arith,
    after_decay p r j,
    is_some-kept_entry r.banned p (lookup p r.scores),
    to_remove-unbanned r.banned p r.scores,
    j.tracked p,
  )

  kept_found :
      (p : String) (r : PeerReputation F) (score : F.Float)
      → (if member p (to_remove F r.banned r.scores)
          then none
          else kept_entry r.banned p (lookup p r.scores))
        ≡ some score
      → kept_entry r.banned p (lookup p r.scores) ≡ some score
  kept_found p r score e = ground arith

  decay_judged :
      (r : PeerReputation F)
      → FloatLaws F
      → IsJudged F r
      → (p : String) (score : F.Float) → lookup p (decay F r).scores ≡ some score
      → F.le score (ban_threshold F) ≡ true
      → member p r.banned ≡ true
  decay_judged r laws j p score l h =
      let e = sym (after_decay p r j) ∙ l in
      let (before, known, low) =
        kept_above r.banned p (lookup p r.scores) score laws (kept_found p r score e) h in
      j.judged p before known low

  pub decay-IsJudged : (r : PeerReputation F) → FloatLaws F → IsJudged F r → IsJudged F (decay F r)
  decay-IsJudged r laws j = record {
    distinct =
        unfold decay in pop_all-Distinct _ _ (decay_scores-Distinct r.banned r.scores j.distinct);
    tracked = λ p m. decay_tracked r j p (unfold decay in m);
    judged = λ p score l h. unfold decay in decay_judged r laws j p score l h;
  }
