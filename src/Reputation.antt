-- ===== src/Reputation.antt =====
-- qbit_network/network/reputation.py: the scores and the bans of the peers. Python floats and their
-- arithmetic are the parameter `Floats`; `time.monotonic()` gives an argument. An argument that may be
-- no str is an Option. Logging is left out.
pub mod Judged
pub mod Decay
pub mod Sound
mod Examples
use qbit_network.Common.{
  ℕ, String, Bool, true, false, not, List, [], ◌∷◌, Option, none, some, if◌then◌else◌, ◌||◌, ◌&&◌,
  length,
}
use qbit_network.Common.Int.{ℤ, pos, negsuc}
use qbit_network.Common.Dict.{Dict, lookup, put, pop, get_or, string_eq}
use qbit_network.Common.Exec.{Result, ok, err}
use qbit_network.Staking.{member, add_member, discard}

-- Floats, with the operations of the source and the constants that are no integers.
pub record Floats : Type 1 where
  pub Float : Type 0
  -- An integer where the source uses it as a float.
  pub of_int : ℤ → Float
  pub decay_rate : Float
  pub tolerance : Float
  pub add : Float → Float → Float
  pub sub : Float → Float → Float
  pub mul : Float → Float → Float
  pub abs : Float → Float
  pub lt : Float → Float → Bool
  pub le : Float → Float → Bool

-- `EVENTS`
abbrev pub events : Dict String ℤ
events =
    ("valid_block", pos 10)
    ∷ ("valid_tx", pos 1)
    ∷ ("invalid_block", negsuc 49)
    ∷ ("invalid_tx", negsuc 9)
    ∷ ("state_root_mismatch", negsuc 99)
    ∷ ("auth_failed", negsuc 99)
    ∷ ("timeout", negsuc 4)
    ∷ ("rate_limited", negsuc 19)
    ∷ ("protocol_error", negsuc 29)
    ∷ []

-- The argument of the ValueError.
pub data ReputationError : Type 0 where
  unknown_event : String → ReputationError

-- A peer id that is a str and not empty.
abbrev pub named : Option String → Option String
named none = none
named (some p) = if string_eq.beq p "" then none else some p

module _ (F : Floats) where
  open F use {Float, of_int, decay_rate, tolerance, add, sub, mul, abs, lt, le}

  pub record PeerReputation : Type 0 where
    pub scores : Dict String Float
    pub banned : List String
    pub last_event : Dict String Float

  unfoldable pub init : PeerReputation
  init = record { scores = []; banned = []; last_event = [] }

  -- `DEFAULT_SCORE`
  abbrev pub default_score : Float
  default_score = of_int (pos 100)

  -- `BAN_THRESHOLD`
  abbrev pub ban_threshold : Float
  ban_threshold = of_int (negsuc 99)

  -- "if new_score <= self.BAN_THRESHOLD ..."
  unfoldable pub ban : String → Float → List String → List String
  ban p new_score banned =
      if le new_score ban_threshold && not (member p banned) then add_member p banned else banned

  -- "delta = self.EVENTS[event]" and what follows it.
  unfoldable pub add_event : Float → String → ℤ → PeerReputation → PeerReputation
  add_event now p delta r =
      let new_score = add (get_or p default_score r.scores) (of_int delta) in
      record {
        scores = put p new_score r.scores;
        banned = ban p new_score r.banned;
        last_event = put p now r.last_event;
      }

  abbrev pub add_known :
      Float → String → String → Option ℤ → PeerReputation → Result ReputationError PeerReputation
  add_known now p event none r = err (unknown_event event)
  add_known now p event (some delta) r = ok (add_event now p delta r)

  -- `record(peer_id, event)`, with both arguments looked at.
  abbrev pub record_named :
      Float → Option String → Option String → PeerReputation → Result ReputationError PeerReputation
  record_named now none event r = ok r
  record_named now (some p) none r = ok r
  record_named now (some p) (some event) r = add_known now p event (lookup event events) r

  -- `record`
  unfoldable pub record_event :
      Float → Option String → Option String → PeerReputation → Result ReputationError PeerReputation
  record_event now peer_id event r = record_named now (named peer_id) event r

  unfoldable pub get_score : Option String → PeerReputation → Float
  get_score peer_id r = elim (named peer_id) [
    | none ↦ default_score
    | some p ↦ get_or p default_score r.scores
  ]

  unfoldable pub is_banned : Option String → PeerReputation → Bool
  is_banned peer_id r = elim (named peer_id) [ none ↦ false | some p ↦ member p r.banned ]

  unfoldable pub unban : Option String → PeerReputation → PeerReputation
  unban peer_id r = elim (named peer_id) [
    | none ↦ r
    | some p ↦ record r { banned = discard p r.banned; scores = put p default_score r.scores }
  ]

  -- `new_score` of `decay`.
  abbrev pub decayed : Float → Float
  decayed score = add default_score (mul (sub score default_score) decay_rate)

  -- The peers whose entry `decay` removes.
  abbrev pub is_faded : List String → String → Float → Bool
  is_faded banned p score =
      lt (abs (sub (decayed score) default_score)) tolerance && not (member p banned)

  unfoldable pub to_remove : List String → Dict String Float → List String
  to_remove banned [] = []
  to_remove banned ((p, score) ∷ d) =
      let rest = to_remove banned d in if is_faded banned p score then p ∷ rest else rest

  -- `self._scores[peer_id] = new_score`, for the peers that stay.
  unfoldable pub decay_scores : List String → Dict String Float → Dict String Float
  decay_scores banned [] = []
  decay_scores banned ((p, score) ∷ d) =
      (p, if is_faded banned p score then score else decayed score) ∷ decay_scores banned d

  unfoldable pub pop_all : List String → Dict String Float → Dict String Float
  pop_all [] d = d
  pop_all (p ∷ ps) d = pop_all ps (pop p d)

  unfoldable pub decay : PeerReputation → PeerReputation
  decay r =
      let gone = to_remove r.banned r.scores in
      record r {
        scores = pop_all gone (decay_scores r.banned r.scores);
        last_event = pop_all gone r.last_event;
      }

  unfoldable pub peer_count : PeerReputation → ℕ
  peer_count r = length r.scores
