-- ===== src/Staking/Epochs.antt =====
-- Epoch rewards, epoch transitions and mature unbondings of qbit_network/core/staking.py.
use qbit_network.Common.{
  ℕ, ◌+◌, ◌-◌, ◌*◌, ◌/◌, min, String, Bool, true, false, ◌&&◌, ◌||◌, List, [], ◌∷◌, ◌++◌, Option,
  none, some, ltb, leb, ◌==◌, if◌then◌else◌, str_eq, map,
}
use qbit_network.Common.Int.{ℤ, pos, pos_part, min_ℤ}
use qbit_network.Common.Dict.{Dict, put, get_or, string_eq, nat_eq}
use qbit_network.Common.Exec.{Exec, ok, err, pure, modify, ◌>>=◌, ◌>>◌}
use qbit_network.Config.{default_commission_rate, epoch_length}
use qbit_network.Finance.{
  Unbonding, Distribution, Stakes, Staking, Finance, set_ledger, set_staking,
}
use qbit_network.Ledger.{Error, Ledger, credit, debit, get_balance}
use qbit_network.Staking.{get_live_validators}

-- `sum(amt for addr, amt in stakes.items() if addr != validator_addr)`
unfoldable pub delegated : String → Dict String ℕ → ℕ
delegated validator_addr [] = 0
delegated validator_addr ((addr, amt) ∷ d) =
    (if str_eq addr validator_addr then 0 else amt) + delegated validator_addr d

-- The loop that pays the delegators of one validator: the sum that it paid, and its credits.
unfoldable pub pay_delegators :
    String → ℕ → ℕ → Dict String ℕ → Exec Error Ledger (ℕ × List (String × ℕ))
pay_delegators validator_addr pool total_delegated [] l = (ok (0, []), l)
pay_delegators validator_addr pool total_delegated ((delegator, stake) ∷ d) l =
    let rest = pay_delegators validator_addr pool total_delegated d in
    let share = pool * stake / total_delegated in
    if str_eq delegator validator_addr || share == 0
    then rest l
    else (do
      credit delegator (pos share)
      paid ← rest
      pure (share + paid.0, (delegator, share) ∷ paid.1))
        l

-- The pool for the delegators of one validator: the rewards less the commission, cut to what the
-- validator holds now and held in the snapshot. (A negative balance gives no positive share in the
-- source, as a pool of 0 does here.)
unfoldable pub delegator_pool : ℕ → ℕ → Option (Dict String ℤ) → String → Ledger → ℕ
delegator_pool epoch_rewards commission_rate balance_snapshot validator_addr l =
    let live_bal = get_balance validator_addr l in
    let val_bal : ℤ = elim balance_snapshot [
      | none ↦ live_bal
      | some snapshot ↦ min_ℤ (get_or validator_addr (pos 0) snapshot) live_bal
    ] in
    min (epoch_rewards - epoch_rewards * commission_rate / 100) (pos_part val_bal)

-- `debits.append((validator_addr, total_distributed))` and the debit itself.
unfoldable pub settle_validator : String → ℕ → Exec Error Ledger (List (String × ℕ))
settle_validator validator_addr total_distributed l =
    if ltb 0 total_distributed
    then (do
      debit validator_addr (pos total_distributed)
      pure ((validator_addr, total_distributed) ∷ []))
        l
    else (ok [], l)

-- One round of the loop of `_distribute_epoch_rewards`: what the validator and its delegators got.
unfoldable pub distribute_to :
    Option (Dict String ℤ) → Staking → String → Dict String ℕ → Exec Error Ledger Distribution
distribute_to balance_snapshot s validator_addr stakes l =
    let commission_rate = get_or validator_addr default_commission_rate s.validator_commission in
    let total_delegated = delegated validator_addr stakes in
    let epoch_rewards = get_or validator_addr 0 s.epoch_rewards in
    if total_delegated == 0 || epoch_rewards == 0
    then (ok (record { credits = []; debits = [] }), l)
    else (do
      paid ←
          pay_delegators validator_addr
            (delegator_pool epoch_rewards commission_rate balance_snapshot validator_addr l)
            total_delegated stakes
      debits ← settle_validator validator_addr paid.0
      pure (record { credits = paid.1; debits = debits }))
        l

abbrev pub join : Distribution → Distribution → Distribution
join a b = record { credits = a.credits ++ b.credits; debits = a.debits ++ b.debits }

-- The loop over `self._stakes.items()`. Each validator's rewards are read once, so that the resets
-- to 0 inside the loop and after it are the one at the end.
unfoldable pub distribute_all :
    Option (Dict String ℤ) → Staking → Stakes → Exec Error Ledger Distribution
distribute_all balance_snapshot s [] l = (ok (record { credits = []; debits = [] }), l)
distribute_all balance_snapshot s ((validator_addr, stakes) ∷ d) l =
    let rest = distribute_all balance_snapshot s d in
    (do
      here ← distribute_to balance_snapshot s validator_addr stakes
      later ← rest
      pure (join here later))
      l

-- `for addr in list(self._epoch_rewards): self._epoch_rewards[addr] = 0`
unfoldable pub reset_rewards : Dict String ℕ → Dict String ℕ
reset_rewards d = map (λ e. (e.0, 0)) d

-- `_distribute_epoch_rewards`
unfoldable pub distribute_epoch_rewards : ℕ → Option (Dict String ℤ) → Exec Error Finance (Unit {0})
distribute_epoch_rewards epoch_number balance_snapshot f =
    let s = f.staking in
    let (result, l) = distribute_all balance_snapshot s s.stakes f.ledger in
    elim result [
      | err e ↦ (err e, set_ledger l f)
      | ok distribution ↦ (
        ok tt,
        record {
          ledger = l;
          staking = record s {
            epoch_rewards = reset_rewards s.epoch_rewards;
            last_epoch_distributions = put epoch_number distribution s.last_epoch_distributions;
          };
        },
      )
    ]

-- `{v_addr: self._balances.get(v_addr, 0) for v_addr in self._stakes}`
unfoldable pub snapshot_balances : Ledger → Stakes → Dict String ℤ
snapshot_balances l stakes = map (λ e. (e.0, get_balance e.0 l)) stakes

-- The end of `_check_epoch_transition`.
unfoldable pub enter_epoch : ℕ → Staking → Staking
enter_epoch new_epoch s =
    let live = get_live_validators s in
    record s {
      current_epoch = new_epoch;
      epoch_validators = live;
      epochs = put new_epoch live s.epochs;
    }

-- `_check_epoch_transition`; EPOCH_LENGTH is positive.
unfoldable pub check_epoch_transition : ℕ → Exec Error Finance (Unit {0})
unfolding enter_epoch
check_epoch_transition block_index f =
    let new_epoch = block_index / epoch_length in
    let none_yet : Bool = elim f.staking.epochs [ [] ↦ true | e ∷ l ↦ false ] in
    if ltb f.staking.current_epoch new_epoch || block_index == 0 && none_yet
    then (if ltb 0 new_epoch && f.ledger.financial_active
        then (do
          distribute_epoch_rewards (new_epoch - 1)
              (some (snapshot_balances f.ledger f.staking.stakes))
          modify (λ g. set_staking (enter_epoch new_epoch g.staking) g))
            f
        else (ok tt, set_staking (enter_epoch new_epoch f.staking) f))
    else (ok tt, f)

-- The loop of `_process_mature_unbondings`: the entries that remain.
unfoldable pub release_mature : ℕ → List Unbonding → Exec Error Ledger (List Unbonding)
release_mature current_index [] l = (ok [], l)
release_mature current_index (entry ∷ unbonding) l =
    let rest = release_mature current_index unbonding in
    if leb entry.release_block current_index
    then (if l.financial_active then (credit entry.staker (pos entry.amount) >> rest) l else rest l)
    else (do remaining ← rest; pure (entry ∷ remaining)) l

-- `_process_mature_unbondings`
unfoldable pub process_mature_unbondings : ℕ → Exec Error Finance (Unit {0})
unfolding release_mature
process_mature_unbondings current_index f =
    let (result, l) = release_mature current_index f.staking.unbonding f.ledger in
    elim result [
      | err e ↦ (err e, set_ledger l f)
      | ok remaining ↦
          (ok tt, record { ledger = l; staking = record f.staking { unbonding = remaining } })
    ]
