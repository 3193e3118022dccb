-- ===== src/Examples/Spending.antt =====
-- Examples on amounts, mandates and the budget.
use tos_messenger.Base.{
  sort_by, insert_by, ◌+◌, ◌≤◌, ◌≡◌, ◌↔◌, refl, true, false, leb, some, List, [], ◌∷◌,
  if◌then◌else◌, Bytes, codes, eq_bytes, ok, err, is_hash, is_prefixed_hash, is_atomic,
  is_capability_class,
}
use tos_messenger.Canon.Encode.{valid_digest}
use tos_messenger.Canon.Hex.{hex_decode}
use tos_messenger.Negotiation.Errors.{budget_exceeded, ledger_failed}
use tos_messenger.Negotiation.Amount.{atomic_value, decimal, decimal-atomic_value}
use tos_messenger.Negotiation.Money.{
  Money, validate_money, validate_asset, validate_network, same_asset, same_network, at_most,
  money_int, add_money, new_money, equal_money, zero_money,
}
use tos_messenger.Negotiation.Terms.{
  validate_terms, is_commitment_digest, is_set_digest, normalize_digest,
}
use tos_messenger.Negotiation.Mandate.{
  live, validate_mandate, seconds_of, permits, permits_at, permits_checks, permits_commit,
  is_commit,
}
use tos_messenger.Negotiation.Exact.{amount, add_money_exact, at_most_lem, equal_money_lem, IsValid}
use tos_messenger.Negotiation.Authority.{Permitted, permits-Permitted, permits_commit_lem}
use tos_messenger.Negotiation.Budget.{
  Budget, Ledger, lookup, put, delete, reserve, reserve_input, reserve_checked, reserve_checks,
  settle_reserve, committed, sum_holds, before, restore, record_budget, commit_hold, committed_hold,
  spend, released, open_budget, opened,
}
use tos_messenger.Negotiation.Budget.Sums.{total_held}
use tos_messenger.Negotiation.Budget.Invariant.{reserve_refused}
use tos_messenger.Negotiation.Budget.Effects.{
  reserve_accepted, commit_hold_accepted, commit_hold_refused, Operation, reserves, commits,
  apply_all, budget_never_exceeded,
}
use tos_messenger.Examples.Data.{
  token, coins, deal, allowance, noon, calm_ledger, torn_ledger, exchange_id, held_budget,
}

decimal-atomic_value_example : decimal (atomic_value (codes "1050")) ≡ codes "1050"
decimal-atomic_value_example = decimal-atomic_value (codes "1050") (unfold is_atomic in refl)

coins-IsValid : IsValid (coins (codes "40"))
unfolding validate_money validate_asset validate_network is_hash is_prefixed_hash is_atomic
coins-IsValid = refl

-- 40 and 2 is 42.
added : add_money (coins (codes "40")) (coins (codes "2")) ≡ ok (coins (codes "42"))
unfolding add_money money_int new_money decimal atomic_value validate_money validate_asset
    validate_network is_hash is_prefixed_hash is_atomic same_asset same_network
added = refl

add_money_exact_example :
    IsValid (coins (codes "42"))
    × (token ≡ token)
    × (token ≡ token)
    × (amount (coins (codes "42")) ≡ amount (coins (codes "40")) + amount (coins (codes "2")))
add_money_exact_example =
    add_money_exact (coins (codes "40")) (coins (codes "2")) (coins (codes "42")) added

at_most_lem_example : (at_most (coins (codes "40")) (coins (codes "9")) ≡ ok false) ↔ (
    IsValid (coins (codes "40"))
    × IsValid (coins (codes "9"))
    × (token ≡ token)
    × (false ≡ leb (amount (coins (codes "40"))) (amount (coins (codes "9")))))
at_most_lem_example = at_most_lem (coins (codes "40")) (coins (codes "9")) false

equal_money_lem_example :
    let m = coins (codes "40") in
    ((equal_money m m ≡ true) ↔ ((m.asset ≡ m.asset) × (amount m ≡ amount m)))
    × ((equal_money m m ≡ true) ↔ (m ≡ m))
equal_money_lem_example =
    equal_money_lem (coins (codes "40")) (coins (codes "40")) coins-IsValid coins-IsValid

permitted : permits allowance deal noon ≡ ok false
unfolding permits permits_at permits_checks live validate_mandate seconds_of validate_terms
    is_commitment_digest is_set_digest normalize_digest valid_digest hex_decode is_capability_class
    at_most money_int atomic_value validate_money validate_asset validate_network is_hash
    is_prefixed_hash is_atomic same_asset same_network
permitted = refl

permits-Permitted_example : Permitted allowance deal noon false
permits-Permitted_example = permits-Permitted allowance deal noon false permitted

permits_commit_lem_example :
    (permits_commit allowance deal noon ≡ ok false)
    ↔ ((permits allowance deal noon ≡ ok false) × (is_commit allowance.authority ≡ true))
permits_commit_lem_example = permits_commit_lem allowance deal noon false

-- 10 spent, 60 held; 30 more for the exchange that holds 40 goes through, 90 does not.
reserve_runs : (reserve calm_ledger exchange_id (coins (codes "30")) held_budget).1 ≡ ok tt
unfolding reserve reserve_input reserve_checked reserve_checks settle_reserve committed sum_holds
    before sort_by insert_by restore record_budget lookup put add_money money_int new_money decimal
    at_most atomic_value validate_money validate_asset validate_network is_hash is_prefixed_hash
    is_atomic same_asset same_network
reserve_runs = refl

reserve_accepted_example :
    ((reserve calm_ledger exchange_id (coins (codes "30")) held_budget).0.spent
      ≡ coins (codes "10"))
    × ((j : Bytes)
        → lookup j (reserve calm_ledger exchange_id (coins (codes "30")) held_budget).0.reserved ≡ (
            if eq_bytes exchange_id j
            then some (coins (codes "30"))
            else lookup j held_budget.reserved))
reserve_accepted_example =
    reserve_accepted calm_ledger exchange_id (coins (codes "30")) held_budget reserve_runs

reserve_fails :
    (reserve calm_ledger exchange_id (coins (codes "90")) held_budget).1 ≡ err budget_exceeded
unfolding reserve reserve_input reserve_checked reserve_checks settle_reserve committed sum_holds
    before sort_by insert_by restore record_budget lookup put add_money money_int new_money decimal
    at_most atomic_value validate_money validate_asset validate_network is_hash is_prefixed_hash
    is_atomic same_asset same_network
reserve_fails = refl

reserve_refused_example :
    (reserve calm_ledger exchange_id (coins (codes "90")) held_budget).0 ≡ held_budget
reserve_refused_example =
    reserve_refused calm_ledger exchange_id (coins (codes "90")) held_budget budget_exceeded
      reserve_fails

commit_runs : (commit_hold calm_ledger exchange_id held_budget).1 ≡ ok tt
unfolding commit_hold committed_hold spend released record_budget lookup delete add_money money_int
    new_money decimal at_most atomic_value validate_money validate_asset validate_network is_hash
    is_prefixed_hash is_atomic same_asset same_network
commit_runs = refl

commit_hold_accepted_example :
    (v : Money) × (lookup exchange_id held_budget.reserved ≡ some v)
    × (amount (commit_hold calm_ledger exchange_id held_budget).0.spent
        ≡ amount held_budget.spent + amount v)
    × (lookup (codes "other") (commit_hold calm_ledger exchange_id held_budget).0.reserved
        ≡ lookup (codes "other") held_budget.reserved)
commit_hold_accepted_example =
    commit_hold_accepted calm_ledger exchange_id (codes "other") held_budget commit_runs refl

commit_fails : (commit_hold torn_ledger exchange_id held_budget).1 ≡ err ledger_failed
unfolding commit_hold committed_hold spend released record_budget lookup delete add_money money_int
    new_money decimal at_most atomic_value validate_money validate_asset validate_network is_hash
    is_prefixed_hash is_atomic same_asset same_network
commit_fails = refl

commit_hold_refused_example :
    ((commit_hold torn_ledger exchange_id held_budget).0.spent ≡ held_budget.spent)
    × (lookup exchange_id (commit_hold torn_ledger exchange_id held_budget).0.reserved
        ≡ lookup exchange_id held_budget.reserved)
commit_hold_refused_example =
    commit_hold_refused torn_ledger exchange_id exchange_id held_budget ledger_failed commit_fails

abbrev fresh : Budget
fresh = record { total = coins (codes "100"); spent = coins (codes "0"); reserved = [] }

opens : open_budget (coins (codes "100")) (some calm_ledger) ≡ ok fresh
unfolding open_budget opened record_budget zero_money validate_money validate_asset validate_network
    is_hash is_prefixed_hash is_atomic
opens = refl

abbrev operations : List (Ledger × Operation)
operations =
    (calm_ledger, reserves exchange_id (coins (codes "40")))
    ∷ (torn_ledger, commits exchange_id)
    ∷ (calm_ledger, reserves (codes "other") (coins (codes "90")))
    ∷ (calm_ledger, commits exchange_id)
    ∷ []

budget_never_exceeded_example :
    amount (apply_all operations fresh).spent + total_held (apply_all operations fresh).reserved
    ≤ amount (apply_all operations fresh).total
budget_never_exceeded_example =
    budget_never_exceeded (coins (codes "100")) calm_ledger fresh operations refl opens
