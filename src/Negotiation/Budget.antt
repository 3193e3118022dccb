-- ===== src/Negotiation/Budget.antt =====
-- pkg/negotiation/budget.go. The map of holds is an association list without repeated keys. The
-- ledger is the caller's: what `Record` answers is a function of the state that it is given. A
-- method of `*Budget` returns the budget as it is left, with its error. The mutex makes each method
-- one step.
pub mod Sums
pub mod Invariant
pub mod Effects
use tos_messenger.Base.{
  negsuc, ◌-◌, pos, ℤ, ℕ, Bool, ◌&&◌, not, Option, none, some, List, [], ◌∷◌, leb, is_some,
  if◌then◌else◌, Bytes, length, eq_bytes, lt_bytes, sort_by, Result, ok, err, require, refuse_if,
  ◌>>=◌, ◌>>◌,
}
use tos_messenger.Negotiation.Errors.{
  too_many_reservations, asset_not_held, ledger_failed, total_changed, bad_negotiation_id,
  budget_exceeded, no_ledger, no_reservation, NegotiationError,
}
use tos_messenger.Negotiation.Money.{
  new_money, money_int, Money, validate_money, same_asset, at_most, add_money, equal_money,
  zero_money, is_out_of_bounds,
}

abbrev pub max_reservations : ℕ
max_reservations = 256

abbrev pub Holds : Type 0
Holds = List (Bytes × Money)

-- m[key]
unfoldable pub lookup : Bytes → Holds → Option Money
lookup k [] = none
lookup k ((j, v) ∷ m) = if eq_bytes j k then some v else lookup k m

-- m[key] = value
unfoldable pub put : Bytes → Money → Holds → Holds
put k v [] = (k, v) ∷ []
put k v ((j, w) ∷ m) = if eq_bytes j k then (j, v) ∷ m else (j, w) ∷ put k v m

-- delete(m, key)
unfoldable pub delete : Bytes → Holds → Holds
delete k [] = []
delete k ((j, w) ∷ m) = if eq_bytes j k then m else (j, w) ∷ delete k m

pub record BudgetState : Type 0 where
  pub total : Money
  pub spent : Money
  pub reserved : Holds

-- Ledger: what `Load` gives, and whether `Record` succeeds.
pub record Ledger : Type 0 where
  pub load : Result NegotiationError (Option BudgetState)
  pub record_state : BudgetState → Bool

pub record Budget : Type 0 where
  pub total : Money
  pub spent : Money
  pub reserved : Holds

abbrev pub Change : Type 0
Change = Budget × Result NegotiationError (Unit {0})

-- record
unfoldable pub record_budget : Ledger → Budget → Result NegotiationError (Unit {0})
record_budget l b =
    require (l.record_state (record { total = b.total; spent = b.spent; reserved = b.reserved }))
      ledger_failed

unfoldable pub opened : Ledger → Budget → Option BudgetState → Result NegotiationError Budget
unfolding record_budget
opened l fresh none = do record_budget l fresh; ok fresh
opened l fresh (some stored) = do
  require (equal_money stored.total fresh.total) total_changed
  ok (record fresh { spent = stored.spent; reserved = stored.reserved })

-- OpenBudget; no ledger is `none`.
unfoldable pub open_budget : Money → Option Ledger → Result NegotiationError Budget
unfolding opened
open_budget total none = do validate_money total; err no_ledger
open_budget total (some l) = do
  validate_money total
  stored ← l.load
  opened l (record { total = total; spent = zero_money total; reserved = [] }) stored

unfoldable pub before : Bytes × Money → Bytes × Money → Bool
before a b = lt_bytes a.0 b.0

-- The loop of `committedLocked` over the sorted holds.
unfoldable pub sum_holds : Money → Holds → Result NegotiationError Money
sum_holds total [] = ok total
sum_holds total ((k, v) ∷ m) = do sum ← add_money total v; sum_holds sum m

-- committedLocked
unfoldable pub committed : Budget → Result NegotiationError Money
unfolding before
committed b = sum_holds b.spent (sort_by before b.reserved)

-- restore
unfoldable pub restore : Bytes → Option Money → Budget → Budget
restore id none b = record b { reserved = delete id b.reserved }
restore id (some previous) b = record b { reserved = put id previous b.reserved }

-- The tests of `Reserve` on the budget that already carries the new hold.
unfoldable pub reserve_checks : Ledger → Budget → Result NegotiationError (Unit {0})
reserve_checks l b = do
  sum ← committed b
  within ← at_most sum b.total
  require within budget_exceeded
  record_budget l b

unfoldable pub settle_reserve :
    Bytes → Option Money → Budget → Result NegotiationError (Unit {0}) → Change
unfolding restore
settle_reserve id previous b (ok u) = (b, ok u)
settle_reserve id previous b (err e) = (restore id previous b, err e)

-- The tests of `Reserve` before the lock is taken, and the bound on the number of holds.
unfoldable pub reserve_input : Bytes → Money → Budget → Result NegotiationError (Unit {0})
reserve_input id amount b = do
  refuse_if (is_out_of_bounds 128 id) bad_negotiation_id
  validate_money amount
  require (same_asset amount.asset b.total.asset) asset_not_held
  refuse_if (not (is_some (lookup id b.reserved)) && leb max_reservations (length b.reserved))
      too_many_reservations

unfoldable pub reserve_checked :
    Ledger → Bytes → Money → Budget → Result NegotiationError (Unit {0}) → Change
unfolding settle_reserve
reserve_checked l id amount b (err e) = (b, err e)
reserve_checked l id amount b (ok u) =
    let held = record b { reserved = put id amount b.reserved } in
    settle_reserve id (lookup id b.reserved) held (reserve_checks l held)

-- Reserve
unfoldable pub reserve : Ledger → Bytes → Money → Budget → Change
unfolding reserve_checked
reserve l id amount b = reserve_checked l id amount b (reserve_input id amount b)

unfoldable pub released : Budget → Budget → Result NegotiationError (Unit {0}) → Change
released old new (ok u) = (new, ok u)
released old new (err e) = (old, err e)

-- Release. A failed write puts the hold back under its key.
unfoldable pub release : Ledger → Bytes → Budget → Change
unfolding released
release l id b = elim (lookup id b.reserved) [
  | none ↦ (b, ok tt)
  | some previous ↦
      let new = record b { reserved = delete id b.reserved } in
      released (record new { reserved = put id previous new.reserved }) new (record_budget l new)
]

-- The tests of `Commit` on the new sum.
unfoldable pub spend : Money → Budget → Result NegotiationError Money
spend amount b = do
  sum ← add_money b.spent amount
  within ← at_most sum b.total
  require within budget_exceeded
  ok sum

unfoldable pub committed_hold :
    Ledger → Bytes → Money → Budget → Result NegotiationError Money → Change
unfolding released
committed_hold l id amount b (err e) = (b, err e)
committed_hold l id amount b (ok sum) =
    let new = record b { spent = sum; reserved = delete id b.reserved } in
    released (record new { spent = b.spent; reserved = put id amount new.reserved }) new
      (record_budget l new)

-- Commit
unfoldable pub commit_hold : Ledger → Bytes → Budget → Change
unfolding spend committed_hold
commit_hold l id b = elim (lookup id b.reserved) [
  | none ↦ (b, err no_reservation)
  | some amount ↦ committed_hold l id amount b (spend amount b)
]

abbrev minus : ℕ → ℕ → ℤ
minus a b = if leb b a then pos (a - b) else negsuc (b - a - 1)

-- Remaining
unfoldable pub remaining : Budget → Result NegotiationError Money
remaining b = do
  sum ← committed b
  left ← money_int b.total
  used ← money_int sum
  new_money b.total.asset (minus left used)
