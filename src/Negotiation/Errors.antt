-- ===== src/Negotiation/Errors.antt =====
-- The errors of pkg/negotiation, one constructor for each message or sentinel.
pub data NegotiationError : Type 0 where
  invalid_network asset_without_network bad_workchain no_account no_master_code no_wallet_code :
      NegotiationError
  too_precise : NegotiationError
  not_canonical_amount different_assets : NegotiationError
  no_capability no_version no_class no_provider no_digest terms_without_expiry : NegotiationError
  no_objective bad_authority bad_class mandate_assets_differ approval_above_ceiling :
      NegotiationError
  bad_counteroffer_bound mandate_without_expiry bad_time mandate_expired : NegotiationError
  conversation_only propose_only not_covered other_asset above_ceiling terms_expired :
      NegotiationError
  outlives_mandate : NegotiationError
  no_amount nothing_named rendering_conflict : NegotiationError
  no_ledger total_changed bad_negotiation_id asset_not_held too_many_reservations : NegotiationError
  budget_exceeded no_reservation ledger_failed negative_amount : NegotiationError
  bad_commitment not_final quote_without_network quote_elsewhere quote_without_time :
      NegotiationError
  no_resolver resolver_failed no_quote quote_mismatch : NegotiationError
  bad_conversation bad_counterparty no_budget no_store mandate_elsewhere store_failed :
      NegotiationError
  poisoned already_ended being_canonicalised already_agreed other_provider terms_elsewhere :
      NegotiationError
  counteroffers_exhausted nothing_on_table not_agreed no_reason approval_not_needed :
      NegotiationError
  nothing_agreed other_terms_approved cannot_commit no_approval terms_changed reopened :
      NegotiationError
  mandate_changed not_canonicalising canonical_failed : NegotiationError
  no_mandate snapshot_without_network terms_off_network approval_ahead no_commitment no_evidence :
      NegotiationError
  other_commitment evidence_elsewhere mandate_gone : NegotiationError
