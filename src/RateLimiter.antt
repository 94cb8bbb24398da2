-- ===== src/RateLimiter.antt =====
-- qbit_network/network/rate_limiter.py: the token buckets of the peers and of the RPC clients. Python
-- floats and their arithmetic are the parameter `Floats`; `time.monotonic()` gives arguments of the
-- operations. The lock makes each operation one step. Logging is left out.
pub mod Entries
pub mod Kept
pub mod Checked
pub mod Sound
mod Examples
use qbit_network.Common.{
  ℕ, suc, String, Bool, true, false, not, List, [], ◌∷◌, ◌++◌, Option, none, some, if◌then◌else◌,
  length, leb, ◌==◌, map,
}
use qbit_network.Common.Dict.{Dict, lookup, put, pop, string_eq}
use qbit_network.Staking.{member, add_member, discard}

-- Floats with the operations of the source, and the constants that it writes.
pub record Floats : Type 1 where
  pub Float : Type 0
  pub zero : Float
  pub one : Float
  pub stale_ttl : Float
  pub add : Float → Float → Float
  pub sub : Float → Float → Float
  pub mul : Float → Float → Float
  pub lt : Float → Float → Bool

-- `_MAX_TRACKED`
abbrev pub max_tracked : ℕ
max_tracked = 10000

module _ (F : Floats) where
  open F use {Float, zero, one, stale_ttl, add, sub, mul, lt}

  -- `_Bucket`
  pub record Bucket : Type 0 where
    pub tokens : Float
    pub last_refill : Float
    pub violations : ℕ

  -- The keys of the dict stand in its order, the least recently used first.
  pub record Limiter : Type 0 where
    pub rate : Float
    pub burst : Float
    pub buckets : Dict String Bucket
    pub logged_keys : List String

  unfoldable pub init : Float → Float → Limiter
  init rate burst = record { rate = rate; burst = burst; buckets = []; logged_keys = [] }

  -- `min(a, b)` of Python.
  abbrev pub min_float : Float → Float → Float
  min_float a b = if lt b a then b else a

  -- The first key without a violation.
  unfoldable pub first_clean : Dict String Bucket → Option String
  first_clean [] = none
  first_clean ((k, b) ∷ d) = if b.violations == 0 then some k else first_clean d

  abbrev pub oldest : Dict String Bucket → Option String
  oldest [] = none
  oldest ((k, b) ∷ d) = some k

  abbrev pub or_oldest : Option String → Dict String Bucket → Option String
  or_oldest none d = oldest d
  or_oldest (some k) d = some k

  -- The key that `_evict_one` deletes.
  unfoldable pub victim : Dict String Bucket → Option String
  victim d = or_oldest (first_clean d) d

  -- `del self._buckets[k]; self._logged_keys.discard(k)`
  unfoldable pub forget : String → Limiter → Limiter
  forget k l = record l { buckets = pop k l.buckets; logged_keys = discard k l.logged_keys }

  -- `_evict_one`, of a limiter with a key.
  unfoldable pub evict_one : Limiter → Limiter
  evict_one l = elim (victim l.buckets) [ none ↦ l | some k ↦ forget k l ]

  -- "Refill tokens"
  unfoldable pub refill : Float → Limiter → Bucket → Bucket
  refill now l b =
      let elapsed = sub now b.last_refill in
      if lt zero elapsed
      then record b {
        tokens = min_float l.burst (add b.tokens (mul elapsed l.rate));
        last_refill = now;
      }
      else b

  -- "Try to consume", with the refilled bucket of the key.
  unfoldable pub consume : String → Bucket → Limiter → Bool × Limiter
  consume key b l =
      if not (lt b.tokens one)
      then (true, record l { buckets = put key (record b { tokens = sub b.tokens one }) l.buckets })
      else (
        false,
        record l {
          buckets = put key (record b { violations = suc b.violations }) l.buckets;
          logged_keys = add_member key l.logged_keys;
        },
      )

  -- The bucket of a key, at the end of the dict: a new one, made at the time `created`, or the one it
  -- has.
  unfoldable pub track : String → Float → Option Bucket → Limiter → Bucket × Limiter
  track key created none l =
      let room = if leb max_tracked (length l.buckets) then evict_one l else l in
      let b : Bucket = record { tokens = l.burst; last_refill = created; violations = 0 } in
      (b, record room { buckets = put key b room.buckets })
  track key created (some b) l = (b, record l { buckets = put key b (pop key l.buckets) })

  -- `check(key)`; `now` is read at its start, `created` when a new bucket is made.
  unfoldable pub check : String → Float → Float → Limiter → Bool × Limiter
  check key now created l =
      let (b, l') = track key created (lookup key l.buckets) l in consume key (refill now l' b) l'

  abbrev pub violations_in : Option Bucket → ℕ
  violations_in none = 0
  violations_in (some b) = b.violations

  unfoldable pub violations : String → Limiter → ℕ
  violations key l = violations_in (lookup key l.buckets)

  unfoldable pub reset : String → Limiter → Limiter
  unfolding forget
  reset key l = forget key l

  -- The keys whose bucket was last refilled before the cutoff.
  unfoldable pub stale_keys : Float → Dict String Bucket → List String
  stale_keys cutoff [] = []
  stale_keys cutoff ((k, b) ∷ d) =
      let rest = stale_keys cutoff d in if lt b.last_refill cutoff then k ∷ rest else rest

  unfoldable pub forget_all : List String → Limiter → Limiter
  forget_all [] l = l
  forget_all (k ∷ ks) l = forget_all ks (forget k l)

  -- `cleanup()`: the number of removed entries, and the limiter.
  unfoldable pub cleanup : Float → Limiter → ℕ × Limiter
  cleanup now l =
      let stale = stale_keys (sub now stale_ttl) l.buckets in (length stale, forget_all stale l)
