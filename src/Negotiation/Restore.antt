-- ===== src/Negotiation/Restore.antt =====
-- pkg/negotiation/snapshot.go: `Snapshot.Validate` and `Restore`. A snapshot here has the one schema
-- and a state that is known, so their tests have nothing to refuse.
use tos_messenger.Base.{
  ℕ, ltb, ◌==◌, ◌&&◌, not, Bool, false, Option, none, some, ◌≡◌, refl, ap, ◌∙◌, length, eq_bytes,
  eq_bytes→eq, Result, ok, require, refuse_if, require-ok, ok-injective, map_err, ◌>>=◌, ◌>>◌,
  >>=-eq-ok, if◌then◌else◌,
}
use tos_messenger.Canon.Encode.{Hash}
use tos_messenger.Negotiation.Errors.{
  NegotiationError, bad_negotiation_id, no_mandate, snapshot_without_network, terms_off_network,
  approval_ahead, no_commitment, no_evidence, other_commitment, evidence_elsewhere, mandate_gone,
  mandate_elsewhere, no_budget, no_store,
}
use tos_messenger.Negotiation.Money.{Network, network_from_domain, same_network, is_out_of_bounds}
use tos_messenger.Negotiation.Terms.{Terms, validate_terms}
use tos_messenger.Negotiation.Mandate.{Mandate, mandate_digest, is_commit}
use tos_messenger.Negotiation.Quote.{validate_quote}
use tos_messenger.Negotiation.State.{Negotiation, Snapshot, Approval, snapshot, is_finalized, given}

-- The tests on one set of terms, if there is one.
unfoldable pub terms_bound : Network → Option Terms → Result NegotiationError (Unit {0})
terms_bound bound none = ok tt
terms_bound bound (some t) = do
  validate_terms t
  require (same_network t.price.asset.network bound) terms_off_network

abbrev pub is_ahead : ℕ → Option Approval → Bool
is_ahead generation none = false
is_ahead generation (some a) = ltb generation a.generation

-- The tests on a finalized snapshot.
unfoldable pub evidence_bound : Network → Snapshot → Result NegotiationError (Unit {0})
evidence_bound bound s = do
  refuse_if (length s.commitment == 0) no_commitment
  q ← given s.quote no_evidence
  validate_quote q
  require (eq_bytes q.commitment s.commitment) other_commitment
  require (same_network q.terms.price.asset.network bound) evidence_elsewhere

-- Snapshot.Validate
unfoldable pub validate_snapshot : Snapshot → Result NegotiationError (Unit {0})
unfolding terms_bound evidence_bound
validate_snapshot s = do
  refuse_if (is_out_of_bounds 128 s.id) bad_negotiation_id
  refuse_if (length s.mandate_digest == 0) no_mandate
  bound ← map_err (λ _. snapshot_without_network) (network_from_domain s.network)
  terms_bound bound s.on_table
  terms_bound bound s.agreed
  refuse_if (is_ahead s.generation s.approval) approval_ahead
  if is_finalized s.state then evidence_bound bound s else ok tt

-- The negotiation that `Restore` makes.
unfoldable pub restored : Snapshot → Mandate → Bool → Negotiation
restored s mandate has_budget = record {
  id = s.id;
  conversation_id = s.conversation_id;
  counterparty_agent_id = s.counterparty_agent_id;
  mandate = mandate;
  state = s.state;
  generation = s.generation;
  counteroffers = s.counteroffers;
  on_table = s.on_table;
  agreed = s.agreed;
  needs_approval = s.needs_approval;
  network = s.network;
  approval = s.approval;
  commitment = s.commitment;
  quote = s.quote;
  failure = s.failure;
  has_budget = has_budget;
  poisoned = false;
}

module _ ⦃h : Hash⦄ where
  -- Restore
  unfoldable pub restore_negotiation :
      Snapshot → Mandate → Bool → Bool → Result NegotiationError Negotiation
  restore_negotiation s mandate has_budget has_store = do
    validate_snapshot s
    digest ← mandate_digest mandate
    require (eq_bytes digest s.mandate_digest) mandate_gone
    bound ← network_from_domain s.network
    require (same_network mandate.max_total.asset.network bound) mandate_elsewhere
    refuse_if (is_commit mandate.authority && not has_budget) no_budget
    require has_store no_store
    ok (restored s mandate has_budget)

  -- A negotiation that is restored from a snapshot has that snapshot: nothing of it is lost or
  -- changed, and the mandate is one with the digest that was written down.
  pub restore_negotiation-snapshot :
      (s : Snapshot) (mandate : Mandate) (has_budget has_store : Bool) (n : Negotiation)
      → restore_negotiation s mandate has_budget has_store ≡ ok n
      → snapshot n ≡ ok s
  unfolding restore_negotiation snapshot restored
  restore_negotiation-snapshot s mandate has_budget has_store n k =
      let (_, e1, k1) = >>=-eq-ok (validate_snapshot s) _ k in
      let (digest, e2, k2) = >>=-eq-ok (mandate_digest mandate) _ k1 in
      let (_, e3, k3) = >>=-eq-ok (require (eq_bytes digest s.mandate_digest) mandate_gone) _ k2 in
      let (bound, e4, k4) = >>=-eq-ok (network_from_domain s.network) _ k3 in
      let (_, e5, k5) =
        >>=-eq-ok (require (same_network mandate.max_total.asset.network bound) mandate_elsewhere) _
          k4 in
      let (_, e6, k6) =
        >>=-eq-ok (refuse_if (is_commit mandate.authority && not has_budget) no_budget) _ k5 in
      let (_, e7, k7) = >>=-eq-ok (require has_store no_store) _ k6 in
      let same = eq_bytes→eq digest s.mandate_digest (require-ok _ mandate_gone e3) in
      rw (← ok-injective k7) (rw (e2 ∙ ap ok same) refl)
