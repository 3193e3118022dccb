-- ===== src/Firewall/Reach.antt =====
-- What an action that needs no owner may reach.
use tos_messenger.Base.{
  ◌≤◌, ◌≡◌, refl, ap, ◌∙◌, Bool, true, false, ◌&&◌, Option, none, some, arith, Result, ok, err,
  require, >>=-eq-ok, Time,
}
use tos_messenger.Canon.Encode.{Hash}
use tos_messenger.Negotiation.Errors.{NegotiationError}
use tos_messenger.Negotiation.Terms.{Terms, validate_terms}
use tos_messenger.Negotiation.Mandate.{Mandate, permits_commit, is_commit}
use tos_messenger.Negotiation.Authority.{Permitted, permits-Permitted, permits_commit_lem}
use tos_messenger.Firewall.Policy.{
  Effect, physical_io, spend, key_use, configuration, unknown_effect, rank, at_least, same_effect,
  Policy, PolicyError, validate_policy, not_a_spend,
}
use tos_messenger.Firewall.Action.{Json, ActionError, Action, is_untrusted, validate_action}
use tos_messenger.Firewall.Evaluate.{
  Outcome, allow, require_owner_approval, refuse, Decision, ceiling_of, judge, decided, evaluate,
  evaluate_spend, judge_spend, spend_of, spend_complete, spend_within,
}

same_effect-rank : (a b : Effect) → same_effect a b ≡ true → rank a ≡ rank b
same_effect-rank (unknown_effect a) (unknown_effect b) h = refl
same_effect-rank a b h = ground arith

record Judged (effect : Effect) (untrusted : Bool) (ceiling : Effect) : Type 0 where
  not_physical : same_effect effect physical_io ≡ false
  not_configuration : same_effect effect configuration ≡ false
  no_derived_key : (untrusted && at_least effect key_use) ≡ false
  within : rank effect ≤ rank ceiling

judge-allow : (e : Effect) (u : Bool) (c : Effect) → (judge e u c).0 ≡ allow → Judged e u c
unfolding judge
judge-allow e u c h = ground (arith, same_effect-rank e c)

module _ ⦃h : Hash⦄ ⦃json : Json⦄ where
  -- What lets an action pass without the owner.
  pub record Unattended (p : Policy) (a : Action) : Type 0 where
    pub policy_valid : validate_policy p ≡ ok tt
    pub action_valid : validate_action a ≡ ok tt
    pub not_physical : same_effect a.effect physical_io ≡ false
    pub not_configuration : same_effect a.effect configuration ≡ false
    pub no_derived_key : (is_untrusted a && at_least a.effect key_use) ≡ false
    pub within : rank a.effect ≤ rank (ceiling_of p a)

  decided-allow :
      (p : Policy) (a : Action) (r : Result ActionError (Unit {0}))
      → (decided p a r).outcome ≡ allow
      → (r ≡ ok tt) × Judged a.effect (is_untrusted a) (ceiling_of p a)
  unfolding decided
  decided-allow p a (ok u) k = (refl, judge-allow a.effect (is_untrusted a) (ceiling_of p a) k)
  decided-allow p a (err e) k = cc

  ok-injective : {d x : Decision} → (let r : Result PolicyError Decision = ok d in r) ≡ ok x → d ≡ x
  ok-injective e = ground arith

  -- `Evaluate` allows an action only under a valid policy, if the action is valid, touches no
  -- physical device and no configuration, uses no key when received content contributed to it, and
  -- is at most as strong as the ceiling for its origin.
  pub evaluate-Unattended :
      (p : Policy) (a : Action) (d : Decision)
      → evaluate p a ≡ ok d
      → d.outcome ≡ allow
      → Unattended p a
  unfolding evaluate
  evaluate-Unattended p a d k allowed =
      let (u, valid, k1) = >>=-eq-ok (validate_policy p) _ k in
      let (action_valid, j) =
        decided-allow p a (validate_action a)
          (ap (λ (x : Decision). x.outcome) (ok-injective k1) ∙ allowed) in
      record {
        policy_valid = valid;
        action_valid = action_valid;
        not_physical = j.not_physical;
        not_configuration = j.not_configuration;
        no_derived_key = j.no_derived_key;
        within = j.within;
      }

  spend_within-allow :
      (d : Decision) (r : Result NegotiationError Bool)
      → (spend_within d r).outcome ≡ allow
      → (r ≡ ok false) × (d.outcome ≡ allow)
  unfolding spend_within
  spend_within-allow d (ok false) k = (refl, k)
  spend_within-allow d (ok true) k = cc
  spend_within-allow d (err e) k = cc

  spend_complete-allow :
      (d : Decision) (v : Result NegotiationError (Unit {0})) (r : Result NegotiationError Bool)
      → (spend_complete d v r).outcome ≡ allow
      → (r ≡ ok false) × (d.outcome ≡ allow)
  unfolding spend_complete
  spend_complete-allow d (ok u) r k = spend_within-allow d r k
  spend_complete-allow d (err e) r k = cc

  spend_of-allow :
      (d : Decision) (o : Option Terms) (m : Mandate) (now : Time)
      → (spend_of d o m now).outcome ≡ allow
      → (t : Terms) × (o ≡ some t) × (permits_commit m t now ≡ ok false) × (d.outcome ≡ allow)
  unfolding spend_of
  spend_of-allow d none m now k = cc
  spend_of-allow d (some t) m now k =
      let (permitted, allowed) =
        spend_complete-allow d (validate_terms t) (permits_commit m t now) k in
      (t, refl, permitted, allowed)

  judge_spend-allow :
      (c : Outcome) (d : Decision) (o : Option Terms) (m : Mandate) (now : Time)
      → d.outcome ≡ c
      → (judge_spend c d o m now).outcome ≡ allow
      → (t : Terms) × (o ≡ some t) × (permits_commit m t now ≡ ok false) × (d.outcome ≡ allow)
  unfolding judge_spend
  judge_spend-allow refuse d o m now e k = cc
  judge_spend-allow allow d o m now e k = spend_of-allow d o m now k
  judge_spend-allow require_owner_approval d o m now e k = spend_of-allow d o m now k

  -- What lets a spend pass without the owner: the firewall and the mandate, both.
  pub record SpendUnattended (p : Policy) (m : Mandate) (a : Action) (now : Time) : Type 0 where
    pub terms : Terms
    pub is_spend : same_effect a.effect spend ≡ true
    pub buys : a.terms ≡ some terms
    pub unattended : Unattended p a
    pub may_commit : is_commit m.authority ≡ true
    pub permitted : Permitted m terms now false

  -- `EvaluateSpend` allows a spend only if `Evaluate` allows the action, and the mandate may commit,
  -- permits the exact terms, and finds their price at or below the approval point.
  pub evaluate_spend-SpendUnattended :
      (p : Policy) (m : Mandate) (a : Action) (now : Time) (d : Decision)
      → evaluate_spend p m a now ≡ ok d
      → d.outcome ≡ allow
      → SpendUnattended p m a now
  unfolding evaluate_spend
  evaluate_spend-SpendUnattended p m a now d k allowed =
      let (_, e1, k1) = >>=-eq-ok (require (same_effect a.effect spend) not_a_spend) _ k in
      let (d0, e2, k2) = >>=-eq-ok (evaluate p a) _ k1 in
      let (t, buys, commits, passed) =
        judge_spend-allow d0.outcome d0 a.terms m now refl
          (ap (λ (x : Decision). x.outcome) (ok-injective k2) ∙ allowed) in
      let (permitted, may_commit) = (permits_commit_lem m t now false).0 commits in
      record {
        terms = t;
        is_spend = required _ e1;
        buys = buys;
        unattended = evaluate-Unattended p a d0 e2 passed;
        may_commit = may_commit;
        permitted = permits-Permitted m t now false permitted;
      }
    where
      required : (b : Bool) {u : Unit {0}} → require b not_a_spend ≡ ok u → b ≡ true
      required true e = refl
      required false e = cc
