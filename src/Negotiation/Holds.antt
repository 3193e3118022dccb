-- ===== src/Negotiation/Holds.antt =====
-- The calls of a negotiation keep the budget that it shares sound.
use tos_messenger.Base.{
  Bool, true, false, Option, none, some, List, [], ◌∷◌, Bytes, Result, ok, err, Time, if◌then◌else◌,
}
use tos_messenger.Canon.Encode.{Hash}
use tos_messenger.Negotiation.Errors.{NegotiationError, quote_mismatch}
use tos_messenger.Negotiation.Quote.{VerifiedAcceptedQuote}
use tos_messenger.Negotiation.Budget.{reserve, release, commit_hold}
use tos_messenger.Negotiation.Budget.Invariant.{
  IsSound, reserve-IsSound, release-IsSound, commit_hold-IsSound,
}
use tos_messenger.Negotiation.Money.{Money}
use tos_messenger.Negotiation.State.{State, Negotiation, Env, World}
use tos_messenger.Negotiation.Exec.{Exec, ◌>>=◌, lift, this, become, on_budget, when, continue}
use tos_messenger.Negotiation.Machine.{
  saved, persist, settle, receive_proposal, counter, accept_intent, reopen, reject_intent, withdraw,
  approve_by_owner, deny_by_owner, begin_canonicalization, expire, finalize, finalize_quote,
  settle_unless_live, matched, permitted_or_rejected, settle_expired, saved, counter_within,
}
use tos_messenger.Negotiation.Calls.{
  Call, receives, counters, accepts, begins, expires, reopens, rejects, withdraws, denies, approves,
  finalizes, call, run,
}

record KeepsBudget {A : Type 0} (m : Exec A) : Type 0 where
  at_world : (w : World) → IsSound w.budget → IsSound (m w).0.budget

module _ {A : Type 0} where
  KeepsBudget-lift : (r : Result NegotiationError A) → KeepsBudget (lift r)
  KeepsBudget-lift r = record { at_world = λ w s. s }

  KeepsBudget-if :
      (b : Bool) (m k : Exec A) → KeepsBudget m → KeepsBudget k → KeepsBudget (if b then m else k)
  KeepsBudget-if true m k p q = p
  KeepsBudget-if false m k p q = q

module _ {A B : Type 0} where
  KeepsBudget-continue :
      (f : A → Exec B) (w : World) (r : Result NegotiationError A)
      → ((a : A) → KeepsBudget (f a))
      → IsSound w.budget
      → IsSound (continue (w, r) f).0.budget
  KeepsBudget-continue f w (ok a) k s = (k a).at_world w s
  KeepsBudget-continue f w (err e) k s = s

  KeepsBudget-bind :
      (m : Exec A) (f : A → Exec B)
      → KeepsBudget m
      → ((a : A) → KeepsBudget (f a))
      → KeepsBudget (m >>= f)
  KeepsBudget-bind m f km kf = record {
    at_world = λ w s. let (w', r) = m w in KeepsBudget-continue f w' r kf (km.at_world w s);
  }

KeepsBudget-this : KeepsBudget this
KeepsBudget-this = record { at_world = λ w s. s }

KeepsBudget-become : (n : Negotiation) → KeepsBudget (become n)
KeepsBudget-become n = record { at_world = λ w s. s }

KeepsBudget-when : (b : Bool) (m : Exec (Unit {0})) → KeepsBudget m → KeepsBudget (when b m)
KeepsBudget-when true m k = k
KeepsBudget-when false m k = KeepsBudget-lift (ok tt)

module _ (env : Env) (id : Bytes) where
  KeepsBudget-reserve : (v : Money) → KeepsBudget (on_budget (reserve env.ledger id v))
  KeepsBudget-reserve v = record { at_world = λ w s. reserve-IsSound env.ledger id v w.budget s }

  KeepsBudget-release : KeepsBudget (on_budget (release env.ledger id))
  KeepsBudget-release = record { at_world = λ w s. release-IsSound env.ledger id w.budget s }

  KeepsBudget-commit_hold : KeepsBudget (on_budget (commit_hold env.ledger id))
  KeepsBudget-commit_hold = record {
    at_world = λ w s. commit_hold-IsSound env.ledger id w.budget s;
  }

ruleset budget_rules = (
  KeepsBudget-lift, KeepsBudget-if, KeepsBudget-bind, KeepsBudget-this, KeepsBudget-become,
  KeepsBudget-when, KeepsBudget-reserve, KeepsBudget-release, KeepsBudget-commit_hold,
)

module _ ⦃h : Hash⦄ (env : Env) where
  KeepsBudget-saved : (b : Bool) → KeepsBudget (saved b)
  unfolding saved
  KeepsBudget-saved true = record { at_world = λ w s. s }
  KeepsBudget-saved false = record { at_world = λ w s. s }

  KeepsBudget-persist : KeepsBudget (persist env)
  unfolding persist
  KeepsBudget-persist = search (budget_rules, KeepsBudget-saved)

  KeepsBudget-settle : (s : State) (reason : Bytes) → KeepsBudget (settle env s reason)
  unfolding settle
  KeepsBudget-settle s reason = search (budget_rules, KeepsBudget-persist) depth 12

  KeepsBudget-settle_unless_live :
      (r : Result NegotiationError (Unit {0})) → KeepsBudget (settle_unless_live env r)
  unfolding settle_unless_live
  KeepsBudget-settle_unless_live (ok u) = search budget_rules
  KeepsBudget-settle_unless_live (err e) = search (budget_rules, KeepsBudget-settle)

  KeepsBudget-matched :
      (r : Result NegotiationError VerifiedAcceptedQuote) → KeepsBudget (matched env r)
  unfolding matched
  KeepsBudget-matched (ok q) = search budget_rules
  KeepsBudget-matched (err quote_mismatch) = search (budget_rules, KeepsBudget-settle)
  KeepsBudget-matched (err _) = search budget_rules

  KeepsBudget-permitted_or_rejected :
      (r : Result NegotiationError Bool) → KeepsBudget (permitted_or_rejected env r)
  unfolding permitted_or_rejected
  KeepsBudget-permitted_or_rejected (ok b) = search budget_rules
  KeepsBudget-permitted_or_rejected (err e) = search (budget_rules, KeepsBudget-settle)

  KeepsBudget-settle_expired : (o : Option Bytes) → KeepsBudget (settle_expired env o)
  unfolding settle_expired
  KeepsBudget-settle_expired none = search budget_rules
  KeepsBudget-settle_expired (some reason) = search (budget_rules, KeepsBudget-settle)

  ruleset action_rules = (
    budget_rules, KeepsBudget-persist, KeepsBudget-settle, KeepsBudget-settle_unless_live,
    KeepsBudget-matched, KeepsBudget-permitted_or_rejected, KeepsBudget-settle_expired,
  )

  KeepsBudget-expire : (now : Time) → KeepsBudget (expire env now)
  unfolding expire
  KeepsBudget-expire now = search action_rules depth 16

  -- Whatever is called on a negotiation, and whatever fails, the shared budget stays sound.
  call-KeepsBudget : (c : Call) → KeepsBudget (call env c)
  unfolding call receive_proposal counter counter_within accept_intent reopen reject_intent withdraw
      approve_by_owner deny_by_owner begin_canonicalization finalize finalize_quote
  call-KeepsBudget (expires now) = search (action_rules, KeepsBudget-expire)
  call-KeepsBudget (receives t now) = search action_rules depth 16
  call-KeepsBudget (counters t now) = search action_rules depth 20
  call-KeepsBudget (accepts now) = search action_rules depth 24
  call-KeepsBudget (begins now) = search action_rules depth 24
  call-KeepsBudget (reopens reason now) = search action_rules depth 20
  call-KeepsBudget (rejects reason) = search action_rules depth 16
  call-KeepsBudget (withdraws reason) = search action_rules depth 16
  call-KeepsBudget (denies reason) = search action_rules depth 16
  call-KeepsBudget (approves shown now) = search action_rules depth 16
  call-KeepsBudget (finalizes resolver commitment now) = search action_rules depth 40

module _ ⦃h : Hash⦄ where
  -- Any sequence of calls, whatever the store, the ledger and the chain answer, leaves a sound budget
  -- sound: what is spent and held stays within the owner's total.
  pub run-IsSound :
      (r : List (Env × Call)) (w : World) → IsSound w.budget → IsSound (run r w).budget
  unfolding run
  run-IsSound [] w s = s
  run-IsSound ((env, c) ∷ r) w s =
      run-IsSound r (call env c w).0 ((call-KeepsBudget env c).at_world w s)
