-- ===== src/Firewall/Origins.antt =====
-- What received content adds to an action: nothing that the agent could not do of its own.
use tos_messenger.Base.{ℕ, ◌≤◌, ◌≡◌, refl, Bool, true, false, [], if◌then◌else◌, arith, ok}
use tos_messenger.Canon.Encode.{Hash}
use tos_messenger.Firewall.Policy.{
  Effect, physical_io, configuration, rank, known, same_effect, Policy, validate_policy,
}
use tos_messenger.Firewall.Action.{Json, Action, is_untrusted, validate_action, validate_origins}
use tos_messenger.Firewall.Evaluate.{allow, Decision, judge, decided, evaluate}
use tos_messenger.Firewall.Reach.{evaluate-Unattended}

rank-same_effect :
    (a b : Effect) → known a ≡ true → known b ≡ true → rank a ≡ rank b → same_effect a b ≡ true
rank-same_effect a b ha hb h = ground arith

known_ceiling :
    (p : Policy)
    → validate_policy p ≡ ok tt
    → (known p.own_initiative_ceiling ≡ true)
      × (rank p.unattended_ceiling ≤ rank p.own_initiative_ceiling)
unfolding validate_policy
known_ceiling p h = (ground arith, ground arith)

judge_own :
    (e c : Effect)
    → known e ≡ true
    → known c ≡ true
    → same_effect e physical_io ≡ false
    → same_effect e configuration ≡ false
    → rank e ≤ rank c
    → (judge e false c).0 ≡ allow
unfolding judge
judge_own e c ke kc np nc w = ground (arith, rank-same_effect e c)

module _ ⦃h : Hash⦄ ⦃json : Json⦄ where
  validate_action_own :
      (a : Action)
      → validate_action a ≡ ok tt
      → (known a.effect ≡ true) × (validate_action (record a { derived_from = [] }) ≡ ok tt)
  unfolding validate_action validate_origins
  validate_action_own a k = (ground arith, ground arith)

  -- What `Evaluate` allows of an action that cites received content, it allows of the same action
  -- that cites none.
  pub evaluate_own :
      (p : Policy) (a : Action) (d : Decision)
      → evaluate p a ≡ ok d
      → d.outcome ≡ allow
      → (own : Decision) × (evaluate p (record a { derived_from = [] }) ≡ ok own)
        × (own.outcome ≡ allow)
  unfolding evaluate decided
  evaluate_own p a d k allowed =
      let u = evaluate-Unattended p a d k allowed in
      let (known_effect, valid) = validate_action_own a u.action_valid in
      let (known_own, wider) = known_ceiling p u.policy_valid in
      let own = record a { derived_from = [] } in
      (
        decided p own (validate_action own),
        rw u.policy_valid refl,
        rw valid (
            judge_own a.effect p.own_initiative_ceiling known_effect known_own u.not_physical
              u.not_configuration (below (is_untrusted a) (rank a.effect) _ _ u.within wider)),
      )
    where
      below :
          (untrusted : Bool) (n : ℕ) (c o : Effect)
          → n ≤ rank (if untrusted then c else o)
          → rank c ≤ rank o
          → n ≤ rank o
      below true n c o w v = omega arith
      below false n c o w v = w
