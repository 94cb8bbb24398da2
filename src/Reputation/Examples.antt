-- ===== src/Reputation/Examples.antt =====
-- Peers that misbehave, with integers for floats and a decay that keeps every score.
use qbit_network.Common.{true, false, List, [], ◌∷◌, some, ◌≡◌, refl, if◌then◌else◌}
use qbit_network.Common.Dict.{lookup, put, pop, string_eq}
use qbit_network.Common.Int.{ℤ, pos, negsuc, ◌+ℤ◌, ◌-ℤ◌, ltb_ℤ, leb_ℤ, int_laws}
use qbit_network.Staking.{member, add_member, discard}
use qbit_network.Reputation.{
  Floats, PeerReputation, init, ban, add_event, record_event, is_banned, get_score, unban, decay,
  to_remove, decay_scores, pop_all, decayed,
}
use qbit_network.Reputation.Judged.{FloatLaws, IsJudged}
use qbit_network.Reputation.Sound.{Call, call_record, call_unban, call_decay, run, run-IsJudged}

abbrev magnitude : ℤ → ℤ
magnitude a = if ltb_ℤ a (pos 0) then pos 0 -ℤ a else a

abbrev integers : Floats
integers = record {
  Float = ℤ;
  of_int = λ i. i;
  decay_rate = pos 1;
  tolerance = pos 1;
  add = ◌+ℤ◌;
  sub = ◌-ℤ◌;
  mul = λ a b. a;
  abs = magnitude;
  lt = ltb_ℤ;
  le = leb_ℤ;
}

kept_score : (a : ℤ) → decayed integers a ≡ a
kept_score a = omega int_laws

integer_laws : FloatLaws integers
integer_laws = record { default_above = refl; decay_above = λ a h. rw (kept_score a, h) refl }

abbrev calls : List (Call integers)
calls =
    call_record (pos 1) (some "a") (some "auth_failed")
    ∷ call_record (pos 2) (some "b") (some "timeout")
    ∷ call_record (pos 3) (some "a") (some "invalid_block")
    ∷ call_record (pos 4) (some "a") (some "no_event")
    ∷ call_record (pos 5) (some "a") (some "invalid_block")
    ∷ call_decay
    ∷ call_record (pos 6) (some "a") (some "valid_block")
    ∷ call_unban (some "c")
    ∷ []

abbrev one_banned : PeerReputation integers
one_banned = run integers calls (init integers)

run-IsJudged_example : IsJudged integers one_banned
run-IsJudged_example = run-IsJudged integers calls integer_laws

-- A ban stays while the score rises again; two hundred points below the start are needed for it.
still_banned : is_banned integers (some "a") one_banned ≡ true
unfolding is_banned init record_event add_event ban unban decay to_remove decay_scores pop_all
    member add_member discard lookup put pop ◌+ℤ◌ ◌-ℤ◌
still_banned = refl

back_at_90 : get_score integers (some "a") one_banned ≡ negsuc 89
unfolding get_score init record_event add_event ban unban decay to_remove decay_scores pop_all
    member add_member discard lookup put pop ◌+ℤ◌ ◌-ℤ◌
back_at_90 = refl

not_banned : is_banned integers (some "b") one_banned ≡ false
unfolding is_banned init record_event add_event ban unban decay to_remove decay_scores pop_all
    member add_member discard lookup put pop ◌+ℤ◌ ◌-ℤ◌
not_banned = refl
