-- ===== src/Reputation/Sound.antt =====
-- Who is banned after any sequence of calls on network/reputation.py.
use qbit_network.Common.{String, List, [], ◌∷◌, Option}
use qbit_network.Common.Dict.{lookup, string_eq}
use qbit_network.Staking.{member}
use qbit_network.Reputation.{Floats, PeerReputation, init, record_event, unban, decay}
use qbit_network.Reputation.Judged.{
  FloatLaws, IsJudged, or_before, record_event-IsJudged, unban-IsJudged,
}
use qbit_network.Reputation.Decay.{decay-IsJudged}

-- The calls that change the object; `record` reads a time.
pub data Call (F : Floats) : Type 0 where
  call_record : F.Float → Option String → Option String → Call F
  call_unban : Option String → Call F
  call_decay : Call F

abbrev pub step : (F : Floats) → Call F → PeerReputation F → PeerReputation F
step F (call_record now peer_id event) r = or_before (record_event F now peer_id event r) r
step F (call_unban peer_id) r = unban F peer_id r
step F call_decay r = decay F r

abbrev pub run : (F : Floats) → List (Call F) → PeerReputation F → PeerReputation F
run F [] r = r
run F (c ∷ calls) r = run F calls (step F c r)

step-IsJudged :
    (F : Floats) (laws : FloatLaws F) (c : Call F) (r : PeerReputation F)
    → IsJudged F r
    → IsJudged F (step F c r)
step-IsJudged F laws (call_record now peer_id event) r j =
    record_event-IsJudged F now peer_id event r j
step-IsJudged F laws (call_unban peer_id) r j = unban-IsJudged F peer_id r laws j
step-IsJudged F laws call_decay r j = decay-IsJudged F r laws j

run_from :
    (F : Floats) (laws : FloatLaws F) (calls : List (Call F)) (r : PeerReputation F)
    → IsJudged F r
    → IsJudged F (run F calls r)
run_from F laws [] r j = j
run_from F laws (c ∷ calls) r j = run_from F laws calls (step F c r) (step-IsJudged F laws c r j)

-- After any sequence of recorded events, unbans and decays on a new object, whatever the arguments:
-- no peer has two scores, a banned peer has a score, and a peer whose score is at the threshold or
-- below it is banned. A new peer's score is taken to be above the threshold, and the decay of a score
-- above it to stay above it.
pub run-IsJudged :
    (F : Floats) (calls : List (Call F)) → FloatLaws F → IsJudged F (run F calls (init F))
unfolding init member lookup
run-IsJudged F calls laws =
    run_from F laws calls (init F)
      (record { distinct = tt; tracked = λ p m. cc; judged = λ p score l h. cc })
