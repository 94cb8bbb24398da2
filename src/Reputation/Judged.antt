-- ===== src/Reputation/Judged.antt =====
-- `record` and `unban` of network/reputation.py keep the bans in step with the scores.
use qbit_network.Common.{
  String, true, false, List, Option, none, some, ◌≡◌, arith, ◌||◌, ◌&&◌, eq_iff, str_eq,
}
use qbit_network.Common.Int.{ℤ}
use qbit_network.Common.Dict.{
  Dict, Distinct, lookup, put, contains, string_eq, lookup-put, put-Distinct,
}
use qbit_network.Common.Exec.{Result, ok, err}
use qbit_network.Staking.{member, discard}
use qbit_network.RateLimiter.Entries.{member-discard, member-add_member}
use qbit_network.Reputation.{
  Floats, ReputationError, PeerReputation, ban, default_score, ban_threshold, add_event, add_known,
  record_named, record_event, unban, named, decayed, events,
}

-- What is used of floats: a new peer is not banned, and the decay leaves a score that is above the
-- threshold above it.
pub record FloatLaws (F : Floats) : Type 0 where
  pub default_above : F.le (default_score F) (ban_threshold F) ≡ false
  pub decay_above :
      (score : F.Float)
      → F.le score (ban_threshold F) ≡ false
      → F.le (decayed F score) (ban_threshold F) ≡ false

-- No peer has two scores; a banned peer has a score; and one whose score is at the threshold or below
-- it is banned.
pub record IsJudged (F : Floats) (r : PeerReputation F) : Type 0 where
  pub distinct : Distinct r.scores
  pub tracked : (p : String) → member p r.banned ≡ true → contains p r.scores ≡ true
  pub judged :
      (p : String) (score : F.Float)
      → lookup p r.scores ≡ some score
      → F.le score (ban_threshold F) ≡ true
      → member p r.banned ≡ true

-- The object after `record`: a ValueError is raised before anything is written.
abbrev pub or_before {ℓ} : {A : Type ℓ} → Result ReputationError A → A → A
or_before (ok after) r = after
or_before (err e) r = r

module _ (F : Floats) where
  contains-put :
      (p q : String) (x : F.Float) (d : Dict String F.Float)
      → contains p (put q x d) ≡ (str_eq q p || contains p d)
  contains-put p q x d = ground (arith, lookup-put p q x d)

  member-ban :
      (p q : String) (x : F.Float) (banned : List String)
      → member p (ban F q x banned) ≡ ((str_eq q p && F.le x (ban_threshold F)) || member p banned)
  unfolding ban
  member-ban p q x banned = ground (arith, eq_iff q p, member-add_member p q banned)

  banned_put :
      (q : String) (x : F.Float) (r : PeerReputation F)
      → IsJudged F r
      → (p : String) → member p (ban F q x r.banned) ≡ true
      → contains p (put q x r.scores) ≡ true
  banned_put q x r j p m =
      ground (arith, member-ban p q x r.banned, contains-put p q x r.scores, j.tracked p)

  judged_put :
      (q : String) (x : F.Float) (r : PeerReputation F)
      → IsJudged F r
      → (p : String) (score : F.Float) → lookup p (put q x r.scores) ≡ some score
      → F.le score (ban_threshold F) ≡ true
      → member p (ban F q x r.banned) ≡ true
  judged_put q x r j p score l h =
      grind (arith, member-ban p q x r.banned, lookup-put p q x r.scores, j.judged p score)

  add_event-IsJudged :
      (now : F.Float) (q : String) (delta : ℤ) (r : PeerReputation F)
      → IsJudged F r
      → IsJudged F (add_event F now q delta r)
  unfolding add_event
  add_event-IsJudged now q delta r j = record {
    distinct = put-Distinct q _ r.scores j.distinct;
    tracked = banned_put q _ r j;
    judged = judged_put q _ r j;
  }

  unban_judged :
      (q : String) (r : PeerReputation F)
      → FloatLaws F
      → IsJudged F r
      → (p : String) (score : F.Float) → lookup p (put q (default_score F) r.scores) ≡ some score
      → F.le score (ban_threshold F) ≡ true
      → member p (discard q r.banned) ≡ true
  unban_judged q r laws j p score l h = grind (
    arith,
    member-discard p q r.banned,
    lookup-put p q (default_score F) r.scores,
    j.judged p score,
    laws.default_above,
  )

  unban_tracked :
      (q : String) (r : PeerReputation F)
      → IsJudged F r
      → (p : String) → member p (discard q r.banned) ≡ true
      → contains p (put q (default_score F) r.scores) ≡ true
  unban_tracked q r j p m =
      ground (
        arith,
        member-discard p q r.banned,
        contains-put p q (default_score F) r.scores,
        j.tracked p,
      )

  put-IsJudged :
      (q : String) (r : PeerReputation F)
      → FloatLaws F
      → IsJudged F r
      → IsJudged F
          (record r { banned = discard q r.banned; scores = put q (default_score F) r.scores })
  put-IsJudged q r laws j = record {
    distinct = put-Distinct q _ r.scores j.distinct;
    tracked = unban_tracked q r j;
    judged = unban_judged q r laws j;
  }

  pub unban-IsJudged :
      (peer_id : Option String) (r : PeerReputation F)
      → FloatLaws F
      → IsJudged F r
      → IsJudged F (unban F peer_id r)
  unfolding unban
  unban-IsJudged peer_id r laws j =
      elim (named peer_id)
        as (λ o. IsJudged F (elim o [
          | none ↦ r
          | some p ↦ record r {
            banned = discard p r.banned;
            scores = put p (default_score F) r.scores;
          }
        ])) [ none ↦ j | some q ↦ put-IsJudged q r laws j ]

  add_known-IsJudged :
      (now : F.Float) (p event : String) (o : Option ℤ) (r : PeerReputation F)
      → IsJudged F r
      → IsJudged F (or_before (add_known F now p event o r) r)
  add_known-IsJudged now p event none r j = j
  add_known-IsJudged now p event (some delta) r j = add_event-IsJudged now p delta r j

  record_named-IsJudged :
      (now : F.Float) (p event : Option String) (r : PeerReputation F)
      → IsJudged F r
      → IsJudged F (or_before (record_named F now p event r) r)
  record_named-IsJudged now none event r j = j
  record_named-IsJudged now (some p) none r j = j
  record_named-IsJudged now (some p) (some event) r j =
      add_known-IsJudged now p event (lookup event events) r j

  pub record_event-IsJudged :
      (now : F.Float) (peer_id event : Option String) (r : PeerReputation F)
      → IsJudged F r
      → IsJudged F (or_before (record_event F now peer_id event r) r)
  unfolding record_event
  record_event-IsJudged now peer_id event r j = record_named-IsJudged now (named peer_id) event r j
