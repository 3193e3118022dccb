-- ===== src/Examples/Exchange.antt =====
-- Examples on the negotiation state machine.
use tos_messenger.Base.{
  false, ◌≡◌, refl, ok, some, List, [], ◌∷◌, is_capability_class, is_hash, is_prefixed_hash,
  is_atomic,
}
use tos_messenger.Canon.Encode.{uint32, uint64, text, bytes, hash32, digest, valid_digest}
use tos_messenger.Canon.Hex.{hex_decode, hex_encode}
use tos_messenger.Negotiation.Amount.{atomic_value, decimal}
use tos_messenger.Negotiation.Money.{
  validate_money, validate_asset, validate_network, same_asset, same_network, at_most, money_int,
  add_money, new_money, equal_money, network_from_domain, canonical_network, canonical_asset,
  canonical_money,
}
use tos_messenger.Negotiation.Terms.{
  is_commitment_digest, validate_terms, is_set_digest, normalize_digest, equal_terms,
}
use tos_messenger.Negotiation.Mandate.{
  live, validate_mandate, seconds_of, permits_commit, permits_at, permits_checks, mandate_digest,
  mandate_bytes,
}
use tos_messenger.Negotiation.Quote.{
  QuoteResolver, resolve_matching_accepted_quote, quote_input, match_found, match_accepted_quote,
  validate_quote, same_domain,
}
use tos_messenger.Negotiation.Budget.{
  commit_hold, committed_hold, spend, lookup, delete, record_budget, released,
}
use tos_messenger.Negotiation.State.{World, withdrawn, snapshot, finalize_gate, finalize_terms}
use tos_messenger.Negotiation.Machine.{
  finalize, finalize_quote, settle_unless_live, matched, permitted_or_rejected, persist, saved,
}
use tos_messenger.Examples.Data.{
  toy_hash, toy_sum, total_byte, pending_world, calm, chain_quote, some_digest, noon, deal,
}
use tos_messenger.Negotiation.Budget.Invariant.{IsSound}
use tos_messenger.Negotiation.Frozen.{run-is_settled}
use tos_messenger.Negotiation.Holds.{run-IsSound}
use tos_messenger.Negotiation.Calls.{Call, run, receives, finalizes, withdraws}
use tos_messenger.Examples.Data.{torn_ledger, held_budget-IsSound}
use tos_messenger.Negotiation.State.{Env}
use tos_messenger.Negotiation.Finality.{Finalized, finalize-Finalized}

abbrev chain : QuoteResolver
chain commitment = ok (some chain_quote)

finalize_runs : (finalize calm (some chain) some_digest noon pending_world).1 ≡ ok tt
unfolding finalize settle_unless_live finalize_gate finalize_terms matched finalize_quote
    permitted_or_rejected persist saved snapshot live validate_mandate seconds_of
    is_capability_class is_hash is_prefixed_hash is_atomic validate_money validate_asset
    validate_network same_asset same_network at_most money_int atomic_value is_commitment_digest
    resolve_matching_accepted_quote quote_input match_found match_accepted_quote validate_quote
    same_domain validate_terms is_set_digest valid_digest normalize_digest equal_terms equal_money
    network_from_domain permits_commit permits_at permits_checks mandate_digest mandate_bytes
    canonical_money canonical_asset canonical_network uint32 uint64 text bytes hash32 digest
    hex_encode hex_decode toy_sum total_byte commit_hold committed_hold spend lookup delete
    record_budget released add_money new_money decimal
finalize_runs = refl

finalize-Finalized_example :
    Finalized chain some_digest noon pending_world.negotiation
      (finalize calm (some chain) some_digest noon pending_world).0.negotiation
finalize-Finalized_example =
    finalize-Finalized calm chain some_digest noon pending_world finalize_runs

-- A ledger that refuses every write, and a store that does.
abbrev torn : Env
torn = record { save = λ s. false; ledger = torn_ledger }

abbrev calls : List (Env × Call)
calls =
    (torn, receives deal noon)
    ∷ (calm, finalizes (some chain) some_digest noon)
    ∷ (torn, withdraws some_digest)
    ∷ []

abbrev ended : World
ended = record pending_world {
  negotiation = record pending_world.negotiation { state = withdrawn };
}

run-is_settled_example : run calls ended ≡ ended
run-is_settled_example = run-is_settled calls ended refl

run-IsSound_example : IsSound (run calls pending_world).budget
run-IsSound_example = run-IsSound calls pending_world held_budget-IsSound
