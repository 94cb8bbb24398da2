-- ===== src/RateLimiter/Examples.antt =====
-- A limiter over integers for floats: one token a second, at most two.
use qbit_network.Common.{true, false, List, [], ◌∷◌, ◌≡◌, refl, arith, if◌then◌else◌}
use qbit_network.Common.Dict.{lookup, put, pop, string_eq}
use qbit_network.Common.Int.{ℤ, pos, ◌+ℤ◌, ◌-ℤ◌, ◌≤ℤ◌, ltb_ℤ, ltb_ℤ→le, eqb_ℤ, int_laws}
use qbit_network.Staking.{member, add_member, discard}
use qbit_network.RateLimiter.{
  Floats, Limiter, init, check, track, refill, consume, cleanup, forget_all, forget, stale_keys,
  reset, evict_one, victim, first_clean,
}
use qbit_network.RateLimiter.Kept.{FloatLaws, IsSound}
use qbit_network.RateLimiter.Sound.{Call, call_check, call_reset, call_cleanup, run, run-IsSound}

abbrev times : ℤ → ℤ → ℤ
times a b = if eqb_ℤ b (pos 1) then a else pos 0

abbrev integers : Floats
integers = record {
  Float = ℤ;
  zero = pos 0;
  one = pos 1;
  stale_ttl = pos 300;
  add = ◌+ℤ◌;
  sub = ◌-ℤ◌;
  mul = times;
  lt = ltb_ℤ;
}

less_by_one : (a b : ℤ) → a ≤ℤ b → a -ℤ pos 1 ≤ℤ b
less_by_one a b h = omega int_laws

le→ltb_ℤ : (a b : ℤ) → a ≤ℤ b → ltb_ℤ b a ≡ false
le→ltb_ℤ a b h = ground arith

integer_laws : FloatLaws integers
integer_laws = record {
  irreflexive = λ a. ground arith;
  asymmetric = λ a b h. ground arith;
  less_one = λ a b h. le→ltb_ℤ (a -ℤ pos 1) b (less_by_one a b (ltb_ℤ→le b a h));
}

abbrev calls : List (Call integers)
calls =
    call_check "a" (pos 5) (pos 5)
    ∷ call_check "b" (pos 5) (pos 5)
    ∷ call_check "a" (pos 5) (pos 5)
    ∷ call_reset "b"
    ∷ call_cleanup (pos 6)
    ∷ []

abbrev two_at_once : Limiter integers
two_at_once = run integers calls (init integers (pos 1) (pos 2))

run-IsSound_example : IsSound integers two_at_once
run-IsSound_example = run-IsSound integers (pos 1) (pos 2) calls integer_laws

-- The third check at one time is refused; a second later one token is there again.
refused : (check integers "a" (pos 5) (pos 5) two_at_once).0 ≡ false
unfolding check track refill consume init lookup put pop ◌-ℤ◌ cleanup forget_all forget stale_keys
    reset discard add_member evict_one victim first_clean member
refused = refl

restored : (check integers "a" (pos 6) (pos 6) two_at_once).0 ≡ true
unfolding check track refill consume init lookup put pop ◌-ℤ◌ cleanup forget_all forget stale_keys
    reset discard add_member evict_one victim first_clean member ◌+ℤ◌
restored = refl
