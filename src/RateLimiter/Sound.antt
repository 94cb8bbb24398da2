-- ===== src/RateLimiter/Sound.antt =====
-- What holds of a limiter of network/rate_limiter.py after any sequence of calls.
use qbit_network.Common.{String, List, [], ◌∷◌, arith}
use qbit_network.Common.Dict.{string_eq}
use qbit_network.Staking.{member}
use qbit_network.RateLimiter.{Floats, Limiter, init, check, reset, cleanup}
use qbit_network.RateLimiter.Kept.{FloatLaws, IsSound, forget-IsSound, forget_all-IsSound}
use qbit_network.RateLimiter.Checked.{check-IsSound}

-- The calls on a limiter, with the times that they read.
pub data Call (F : Floats) : Type 0 where
  call_check : String → F.Float → F.Float → Call F
  call_reset : String → Call F
  call_cleanup : F.Float → Call F

abbrev pub step : (F : Floats) → Call F → Limiter F → Limiter F
step F (call_check key now created) l = (check F key now created l).1
step F (call_reset key) l = reset F key l
step F (call_cleanup now) l = (cleanup F now l).1

abbrev pub run : (F : Floats) → List (Call F) → Limiter F → Limiter F
run F [] l = l
run F (c ∷ calls) l = run F calls (step F c l)

step-IsSound :
    (F : Floats) (laws : FloatLaws F) (c : Call F) (l : Limiter F)
    → IsSound F l
    → IsSound F (step F c l)
unfolding reset cleanup
step-IsSound F laws (call_check key now created) l s = check-IsSound F laws key now created l s
step-IsSound F laws (call_reset key) l s = forget-IsSound F key l s
step-IsSound F laws (call_cleanup now) l s = forget_all-IsSound F _ l s

run_from :
    (F : Floats) (laws : FloatLaws F) (calls : List (Call F)) (l : Limiter F)
    → IsSound F l
    → IsSound F (run F calls l)
run_from F laws [] l s = s
run_from F laws (c ∷ calls) l s = run_from F laws calls (step F c l) (step-IsSound F laws c l s)

-- After any sequence of checks, resets and cleanups on a new limiter, at any times: at most 10,000
-- keys are tracked, none twice; each bucket holds at most the burst; and only tracked keys count as
-- logged. The order of floats is taken to be irreflexive and asymmetric, and taking one away never
-- makes a float exceed a bound that it kept.
pub run-IsSound :
    (F : Floats) (rate burst : F.Float) (calls : List (Call F))
    → FloatLaws F
    → IsSound F (run F calls (init F rate burst))
unfolding init member
run-IsSound F rate burst calls laws =
    run_from F laws calls (init F rate burst)
      (record { distinct = tt; few = omega arith; capped = tt; logged = λ k m. cc })
