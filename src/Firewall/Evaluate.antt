-- ===== src/Firewall/Evaluate.antt =====
-- pkg/firewall/firewall.go and spend.go: `Evaluate` and `EvaluateSpend`.
use tos_messenger.Base.{
  Bool, true, false, ◌&&◌, not, Option, none, some, List, [], lt_bytes, sort_by, if◌then◌else◌,
  Result, ok, err, require, Time, ◌>>=◌, ◌>>◌,
}
use tos_messenger.Canon.Encode.{Hash}
use tos_messenger.Negotiation.Errors.{NegotiationError}
use tos_messenger.Negotiation.Terms.{Terms, validate_terms}
use tos_messenger.Negotiation.Mandate.{Mandate, permits_commit}
use tos_messenger.Firewall.Policy.{
  Effect, physical_io, spend, key_use, configuration, at_least, same_effect, Policy, PolicyError,
  not_a_spend, validate_policy,
}
use tos_messenger.Firewall.Action.{Json, ActionError, Origin, Action, is_untrusted, validate_action}

pub data Outcome : Type 0 where
  allow require_owner_approval refuse : Outcome

-- The sentences that a decision gives as its reason.
pub data Reason : Type 0 where
  malformed : ActionError → Reason
  always_physical changes_configuration derived_key_use too_strong within_policy without_terms :
      Reason
  incomplete_terms outside_mandate : NegotiationError → Reason
  above_amount : Reason

-- A refusal of a malformed action leaves the ceiling empty.
pub record Decision : Type 0 where
  pub outcome : Outcome
  pub reason : Reason
  pub effect : Effect
  pub ceiling : Option Effect
  pub provenance : List Origin

abbrev pub ceiling_of : Policy → Action → Effect
ceiling_of p a = if is_untrusted a then p.unattended_ceiling else p.own_initiative_ceiling

-- The tests of `Evaluate` on a valid action, in their order.
unfoldable pub judge : Effect → Bool → Effect → Outcome × Reason
judge effect untrusted ceiling =
    if same_effect effect physical_io
    then (require_owner_approval, always_physical)
    else if same_effect effect configuration
    then (require_owner_approval, changes_configuration)
    else if untrusted && at_least effect key_use
    then (require_owner_approval, derived_key_use)
    else if at_least effect ceiling && not (same_effect effect ceiling)
    then (require_owner_approval, too_strong)
    else (allow, within_policy)

abbrev by_event : Origin → Origin → Bool
by_event a b = lt_bytes a.event_id b.event_id

unfoldable pub decided : Policy → Action → Result ActionError (Unit {0}) → Decision
decided p a (err e) = record {
  outcome = refuse;
  reason = malformed e;
  effect = a.effect;
  ceiling = none;
  provenance = [];
}
decided p a (ok u) =
    let (outcome, reason) = judge a.effect (is_untrusted a) (ceiling_of p a) in
    record {
      outcome = outcome;
      reason = reason;
      effect = a.effect;
      ceiling = some (ceiling_of p a);
      provenance = sort_by by_event a.derived_from;
    }

-- What a mandate adds to a decision that lets a spend pass or asks the owner.
unfoldable pub spend_within : Decision → Result NegotiationError Bool → Decision
spend_within d (err e) = record d { outcome = require_owner_approval; reason = outside_mandate e }
spend_within d (ok true) = record d { outcome = require_owner_approval; reason = above_amount }
spend_within d (ok false) = d

unfoldable pub spend_complete :
    Decision → Result NegotiationError (Unit {0}) → Result NegotiationError Bool → Decision
unfolding spend_within
spend_complete d (err e) permitted = record d { outcome = refuse; reason = incomplete_terms e }
spend_complete d (ok u) permitted = spend_within d permitted

unfoldable pub spend_of : Decision → Option Terms → Mandate → Time → Decision
unfolding spend_complete
spend_of d none m now = record d { outcome = refuse; reason = without_terms }
spend_of d (some t) m now = spend_complete d (validate_terms t) (permits_commit m t now)

unfoldable pub judge_spend : Outcome → Decision → Option Terms → Mandate → Time → Decision
unfolding spend_of
judge_spend refuse d terms m now = d
judge_spend _ d terms m now = spend_of d terms m now

module _ ⦃h : Hash⦄ ⦃json : Json⦄ where
  -- Evaluate
  unfoldable pub evaluate : Policy → Action → Result PolicyError Decision
  unfolding decided
  evaluate p a = do validate_policy p; ok (decided p a (validate_action a))

  -- EvaluateSpend
  unfoldable pub evaluate_spend : Policy → Mandate → Action → Time → Result PolicyError Decision
  evaluate_spend p m a now = do
    require (same_effect a.effect spend) not_a_spend
    d ← evaluate p a
    ok (judge_spend d.outcome d a.terms m now)
