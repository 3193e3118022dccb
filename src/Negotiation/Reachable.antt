-- ===== src/Negotiation/Reachable.antt =====
-- Every sequence of calls keeps a negotiation well formed.
use tos_messenger.Base.{
  is_prefixed_hash, codes, subst, ◌≡◌, refl, Bool, true, false, ◌&&◌, not, Option, none, some, List,
  [], ◌∷◌, leb, ltb, Bytes, Result, ok, err, arith, Time, if◌then◌else◌, require, refuse_if,
  >>=-eq-ok,
}
use tos_messenger.Negotiation.Money.{
  same_network, is_out_of_bounds, NetworkDomain, network_from_domain,
}
use tos_messenger.Negotiation.Terms.{agent_prefix, Terms}
use tos_messenger.Negotiation.Mandate.{is_commit, Mandate, permits, live}
use tos_messenger.Negotiation.Errors.{
  bad_conversation, bad_counterparty, bad_negotiation_id, mandate_elsewhere, no_budget,
  store_failed, no_store, NegotiationError, quote_mismatch,
}
use tos_messenger.Negotiation.State.{
  Snapshot, snapshot, given, State, canonicalization_pending, Negotiation, Env, World,
  is_canonicalising, begin_checks, finalize_gate,
}
use tos_messenger.Negotiation.Creation.{new, new_negotiation}
use tos_messenger.Canon.Encode.{Hash}
use tos_messenger.Negotiation.Exact.{amount}
use tos_messenger.Negotiation.Authority.{permits-Permitted}
use tos_messenger.Negotiation.Quote.{VerifiedAcceptedQuote, QuoteResolver}
use tos_messenger.Negotiation.Budget.{Budget}
use tos_messenger.Negotiation.Exec.{Exec, ◌>>=◌, lift, this, become, on_budget, when, continue}
use tos_messenger.Negotiation.Machine.{
  saved, persist, settle, receive_proposal, counter, counter_within, accept_intent, reopen,
  reject_intent, withdraw, approve_by_owner, deny_by_owner, begin_canonicalization, expire,
  finalize, finalize_quote, settle_unless_live, matched, permitted_or_rejected, settle_expired,
}
use tos_messenger.Negotiation.WellFormed.{
  WellFormed, is_bound, proposed-WellFormed, countered-WellFormed, accepted-WellFormed,
  reopened-WellFormed, approved-WellFormed, poisoned-WellFormed, begun-WellFormed,
  finalized-WellFormed, ended-WellFormed,
}
use tos_messenger.Negotiation.Finality.{finalize_gate-ok}
use tos_messenger.Negotiation.Approvals.{begin_checks-Ready}
use tos_messenger.Negotiation.Calls.{
  Call, receives, counters, accepts, begins, expires, reopens, rejects, withdraws, denies, approves,
  finalizes, call, run,
}

record Keeps {A : Type 0} (m : Exec A) : Type 0 where
  at_world : (w : World) → WellFormed w.negotiation → WellFormed (m w).0.negotiation

module _ {A : Type 0} where
  Keeps-lift : (r : Result NegotiationError A) → Keeps (lift r)
  Keeps-lift r = record { at_world = λ w s. s }

  Keeps-if :
      (b : Bool) (m k : Exec A)
      → (b ≡ true → Keeps m)
      → (b ≡ false → Keeps k)
      → Keeps (if b then m else k)
  Keeps-if true m k p q = p refl
  Keeps-if false m k p q = q refl

  Keeps-this :
      (f : Negotiation → Exec A)
      → ((n : Negotiation) → WellFormed n → Keeps (f n))
      → Keeps (this >>= f)
  Keeps-this f k = record { at_world = λ w s. (k w.negotiation s).at_world w s }

  Keeps-become :
      (n : Negotiation) (f : Unit {0} → Exec A)
      → WellFormed n
      → Keeps (f tt)
      → Keeps (become n >>= f)
  Keeps-become n f wf k = record { at_world = λ w s. k.at_world (record w { negotiation = n }) wf }

module _ {A B : Type 0} where
  Keeps-given :
      (r : Result NegotiationError A) (f : A → Exec B)
      → ((a : A) → r ≡ ok a → Keeps (f a))
      → Keeps (lift r >>= f)
  Keeps-given (ok a) f k = record { at_world = (k a refl).at_world }
  Keeps-given (err e) f k = record { at_world = λ w s. s }

  Keeps-continue :
      (f : A → Exec B) (w : World) (r : Result NegotiationError A)
      → ((a : A) → Keeps (f a))
      → WellFormed w.negotiation
      → WellFormed (continue (w, r) f).0.negotiation
  Keeps-continue f w (ok a) k s = (k a).at_world w s
  Keeps-continue f w (err e) k s = s

  Keeps-bind : (m : Exec A) (f : A → Exec B) → Keeps m → ((a : A) → Keeps (f a)) → Keeps (m >>= f)
  Keeps-bind m f km kf = record {
    at_world = λ w s. let (w', r) = m w in Keeps-continue f w' r kf (km.at_world w s);
  }

Keeps-when : (b : Bool) (m : Exec (Unit {0})) → Keeps m → Keeps (when b m)
Keeps-when true m k = k
Keeps-when false m k = Keeps-lift (ok tt)

Keeps-on_budget : (f : Budget → Budget × Result NegotiationError (Unit {0})) → Keeps (on_budget f)
Keeps-on_budget f = record { at_world = λ w s. s }

Keeps-saved : (b : Bool) → Keeps (saved b)
unfolding saved
Keeps-saved true = record { at_world = λ w s. s }
Keeps-saved false = record { at_world = λ w s. poisoned-WellFormed w.negotiation s }

ruleset action_steps = (
  Keeps-this, Keeps-become, Keeps-given, Keeps-bind, Keeps-lift, Keeps-when, Keeps-on_budget,
  Keeps-saved,
)

no_resolver_fails : (n : Negotiation) (x : QuoteResolver) → finalize_gate n none ≡ ok x → ⊥
unfolding finalize_gate
no_resolver_fails n x k = ground arith

module _ ⦃h : Hash⦄ (env : Env) where
  Keeps-persist : Keeps (persist env)
  unfolding persist
  Keeps-persist = search action_steps depth 12

  Keeps-settle : (s : State) (reason : Bytes) → is_bound s ≡ false → Keeps (settle env s reason)
  unfolding settle
  Keeps-settle s reason h = search (action_steps, Keeps-persist, ended-WellFormed) depth 16

  Keeps-settle_unless_live :
      (r : Result NegotiationError (Unit {0})) → Keeps (settle_unless_live env r)
  unfolding settle_unless_live
  Keeps-settle_unless_live (ok u) = search action_steps
  Keeps-settle_unless_live (err e) = search (action_steps, Keeps-settle)

  Keeps-matched : (r : Result NegotiationError VerifiedAcceptedQuote) → Keeps (matched env r)
  unfolding matched
  Keeps-matched (ok q) = Keeps-lift (ok q)
  Keeps-matched (err quote_mismatch) = search (action_steps, Keeps-settle)
  Keeps-matched (err _) = Keeps-lift _

  Keeps-permitted_or_rejected :
      (r : Result NegotiationError Bool) → Keeps (permitted_or_rejected env r)
  unfolding permitted_or_rejected
  Keeps-permitted_or_rejected (ok b) = Keeps-lift (ok tt)
  Keeps-permitted_or_rejected (err e) = search (action_steps, Keeps-settle)

  Keeps-settle_expired : (o : Option Bytes) → Keeps (settle_expired env o)
  unfolding settle_expired
  Keeps-settle_expired none = Keeps-lift (ok false)
  Keeps-settle_expired (some reason) = search (action_steps, Keeps-settle)

  ruleset action_rules = (
    action_steps, Keeps-persist, Keeps-settle, Keeps-settle_unless_live, Keeps-matched,
    Keeps-permitted_or_rejected, Keeps-settle_expired,
  )

  Keeps-expire : (now : Time) → Keeps (expire env now)
  unfolding expire
  Keeps-expire now = search (action_rules, Keeps-if) depth 16

  Keeps-finalize_quote :
      (n : Negotiation) (commitment : Bytes) (now : Time) (q : VerifiedAcceptedQuote)
      → WellFormed n
      → is_canonicalising n.state ≡ true
      → Keeps (finalize_quote env n commitment now q)
  unfolding finalize_quote
  Keeps-finalize_quote n commitment now q wf p =
      search (action_rules, finalized-WellFormed) depth 20

  is_canonicalising_of_gate :
      (n : Negotiation) (resolver : Option QuoteResolver) (x : QuoteResolver)
      → finalize_gate n resolver ≡ ok x
      → is_canonicalising n.state ≡ true
  is_canonicalising_of_gate n (some r) x gate = (finalize_gate-ok n r x gate).1
  is_canonicalising_of_gate n none x gate = absurd (no_resolver_fails n x gate)

  Keeps-finalize :
      (resolver : Option QuoteResolver) (commitment : Bytes) (now : Time)
      → Keeps (finalize env resolver commitment now)
  unfolding finalize
  Keeps-finalize resolver commitment now =
      search (action_rules, Keeps-finalize_quote, is_canonicalising_of_gate) depth 30

  checked-WellFormed :
      (n : Negotiation) (now : Time)
      → WellFormed n
      → begin_checks n now ≡ ok tt
      → WellFormed (record n { state = canonicalization_pending })
  checked-WellFormed n now wf checks =
      begun-WellFormed n wf (begin_checks-Ready n now checks).was_agreed

  decision_of_permits :
      (n : Negotiation) (t : Terms) (now : Time) (needs : Bool)
      → permits n.mandate t now ≡ ok needs
      → needs ≡ ltb (amount n.mandate.approval_above) (amount t.price)
  decision_of_permits n t now needs k = (permits-Permitted n.mandate t now needs k).decision

  Keeps-counter_within :
      (n : Negotiation) (t : Terms) (now : Time)
      → WellFormed n
      → leb n.mandate.max_counteroffers n.counteroffers ≡ false
      → Keeps (counter_within env n t now)
  unfolding counter_within
  Keeps-counter_within n t now wf k = search (action_rules, countered-WellFormed) depth 20

  call-Keeps : (c : Call) → Keeps (call env c)
  unfolding call receive_proposal counter accept_intent reopen reject_intent withdraw
      approve_by_owner deny_by_owner begin_canonicalization
  call-Keeps (expires now) = search (action_rules, Keeps-expire)
  call-Keeps (receives t now) = search (action_rules, proposed-WellFormed) depth 24
  call-Keeps (counters t now) = search (action_rules, Keeps-if, Keeps-counter_within) depth 24
  call-Keeps (accepts now) =
      search (action_rules, accepted-WellFormed, decision_of_permits) depth 30
  call-Keeps (begins now) = search (action_rules, checked-WellFormed) depth 24
  call-Keeps (reopens reason now) = search (action_rules, reopened-WellFormed) depth 24
  call-Keeps (rejects reason) = search action_rules depth 16
  call-Keeps (withdraws reason) = search action_rules depth 16
  call-Keeps (denies reason) = search action_rules depth 16
  call-Keeps (approves shown now) = search (action_rules, approved-WellFormed) depth 20
  call-Keeps (finalizes resolver commitment now) = search (action_rules, Keeps-finalize)

module _ ⦃h : Hash⦄ where
  pub run-WellFormed :
      (r : List (Env × Call)) (w : World)
      → WellFormed w.negotiation
      → WellFormed (run r w).negotiation
  unfolding run
  run-WellFormed [] w s = s
  run-WellFormed ((env, c) ∷ r) w s =
      run-WellFormed r (call env c w).0 ((call-Keeps env c).at_world w s)

  new_runs :
      (id conversation counterparty : Bytes) (mandate : Mandate) (network : NetworkDomain)
      (has_budget : Bool) (store : Option (Snapshot → Bool)) (now : Time) (n : Negotiation)
      → new id conversation counterparty mandate network has_budget store now ≡ ok n
      → new_negotiation id conversation counterparty mandate network has_budget ≡ n
  unfolding new
  new_runs id conversation counterparty mandate network has_budget store now n k =
      let (_, _, k1) =
        >>=-eq-ok (require (is_prefixed_hash (codes "conv_") conversation) bad_conversation) _ k in
      let (_, _, k2) =
        >>=-eq-ok (require (is_prefixed_hash agent_prefix counterparty) bad_counterparty) _ k1 in
      let (_, _, k3) = >>=-eq-ok (refuse_if (is_out_of_bounds 128 id) bad_negotiation_id) _ k2 in
      let (bound, _, k4) = >>=-eq-ok (network_from_domain network) _ k3 in
      let (_, _, k5) = >>=-eq-ok (live mandate now) _ k4 in
      let (_, _, k6) =
        >>=-eq-ok (require (same_network mandate.max_total.asset.network bound) mandate_elsewhere) _
          k5 in
      let (_, _, k7) =
        >>=-eq-ok (refuse_if (is_commit mandate.authority && not has_budget) no_budget) _ k6 in
      let (save, _, k8) = >>=-eq-ok (given store no_store) _ k7 in
      let n0 = new_negotiation id conversation counterparty mandate network has_budget in
      let (state, _, k9) = >>=-eq-ok (snapshot n0) _ k8 in
      let (_, _, k10) = >>=-eq-ok (require (save state) store_failed) _ k9 in ok-injective k10
    where
      ok-injective :
          {a b : Negotiation}
          → (let r : Result NegotiationError Negotiation = ok a in r) ≡ ok b
          → a ≡ b
      ok-injective e = ground arith

  pub new-WellFormed :
      (id conversation counterparty : Bytes) (mandate : Mandate) (network : NetworkDomain)
      (has_budget : Bool) (store : Option (Snapshot → Bool)) (now : Time) (n : Negotiation)
      → new id conversation counterparty mandate network has_budget store now ≡ ok n
      → WellFormed n
  unfolding new_negotiation
  new-WellFormed id conversation counterparty mandate network has_budget store now n k =
      subst WellFormed
        (new_runs id conversation counterparty mandate network has_budget store now n k)
        (record { asks_owner = refl; has_terms = refl; has_quote = refl; within = omega arith })
