-- ===== src/Examples/Owning.antt =====
-- A whole exchange, from `New` to `Finalize`, with a price that the owner has to approve.
use tos_messenger.Base.{
  ◌≡◌, refl, arith, some, List, [], ◌∷◌, ◌++◌, Bytes, codes, ok, true, Bool, is_capability_class,
  is_hash, is_prefixed_hash, is_atomic, sort_by, insert_by,
}
use tos_messenger.Canon.Encode.{uint32, uint64, text, bytes, hash32, digest, valid_digest}
use tos_messenger.Canon.Hex.{hex_decode, hex_encode}
use tos_messenger.Negotiation.Amount.{atomic_value, decimal}
use tos_messenger.Negotiation.Money.{
  validate_money, validate_asset, validate_network, same_asset, same_network, at_most, money_int,
  add_money, new_money, equal_money, network_from_domain, canonical_network, canonical_asset,
  canonical_money,
}
use tos_messenger.Negotiation.Terms.{
  Terms, is_commitment_digest, validate_terms, is_set_digest, normalize_digest, equal_terms,
  terms_digest, terms_bytes, terms_fields,
}
use tos_messenger.Negotiation.Mandate.{
  live, validate_mandate, seconds_of, permits, permits_commit, permits_at, permits_checks,
  mandate_digest, mandate_bytes,
}
use tos_messenger.Negotiation.Quote.{
  QuoteResolver, resolve_matching_accepted_quote, quote_input, match_found, match_accepted_quote,
  validate_quote, same_domain,
}
use tos_messenger.Negotiation.Budget.{
  reserve, reserve_input, reserve_checked, reserve_checks, settle_reserve, committed, sum_holds,
  before, put, commit_hold, committed_hold, spend, lookup, delete, record_budget, released,
}
use tos_messenger.Negotiation.State.{
  Negotiation, Env, World, Snapshot, snapshot, open_at, binds_counterparty, binds_network,
  owner_approval, approval_stands, begin_checks, finalize_gate, finalize_terms,
}
use tos_messenger.Negotiation.Machine.{
  receive_proposal, accept_intent, approve_by_owner, begin_canonicalization, finalize,
  finalize_quote, settle_unless_live, matched, permitted_or_rejected, persist, saved,
}
use tos_messenger.Negotiation.Creation.{new, new_negotiation}
use tos_messenger.Negotiation.Calls.{Call, call, run, receives, accepts, approves, begins}
use tos_messenger.Negotiation.WellFormed.{WellFormed}
use tos_messenger.Negotiation.Owner.{run-new-WellFormed, finalize-run-new}
use tos_messenger.Examples.Data.{
  toy_hash, toy_sum, total_byte, hex64, home, coins, provider, deal, allowance, exchange_id,
  held_budget, chain_quote, calm, noon, some_digest,
}
use tos_messenger.Examples.Approving.{value_of}

-- The approval point is 50.
abbrev dear : Terms
dear = record deal { price = coins (codes "60") }

abbrev conversation : Bytes
conversation = codes "conv_" ++ hex64

abbrev always : Snapshot → Bool
always s = true

abbrev made : Negotiation
made = new_negotiation exchange_id conversation provider allowance (some home) true

made_runs :
    new exchange_id conversation provider allowance (some home) true (some always) noon ≡ ok made
unfolding new new_negotiation is_capability_class is_hash is_prefixed_hash is_atomic sort_by
    insert_by validate_money validate_asset validate_network same_asset same_network at_most
    money_int atomic_value is_commitment_digest resolve_matching_accepted_quote quote_input
    match_found match_accepted_quote validate_quote same_domain validate_terms is_set_digest
    valid_digest normalize_digest equal_terms equal_money network_from_domain permits permits_commit
    permits_at permits_checks mandate_digest mandate_bytes terms_digest terms_bytes terms_fields
    canonical_money canonical_asset canonical_network uint32 uint64 text bytes hash32 digest
    hex_encode hex_decode toy_sum total_byte commit_hold committed_hold spend lookup put delete
    record_budget released reserve reserve_input reserve_checked reserve_checks settle_reserve
    committed sum_holds before add_money new_money decimal live validate_mandate seconds_of persist
    saved snapshot
made_runs = refl

abbrev calls : List (Env × Call)
calls =
    (calm, receives dear noon)
    ∷ (calm, accepts noon)
    ∷ (calm, approves (value_of (terms_digest dear)) noon)
    ∷ (calm, begins noon)
    ∷ []

run-new-WellFormed_example :
    WellFormed (run calls (record { negotiation = made; budget = held_budget })).negotiation
run-new-WellFormed_example =
    run-new-WellFormed exchange_id conversation provider allowance (some home) true (some always)
      noon made held_budget calls made_runs

abbrev reached : World
reached = run calls (record { negotiation = made; budget = held_budget })

abbrev chain : QuoteResolver
chain commitment = ok (some (record chain_quote { terms = dear }))

finalizes_reached : (finalize calm (some chain) some_digest noon reached).1 ≡ ok tt
unfolding new_negotiation run call receive_proposal accept_intent approve_by_owner
    begin_canonicalization finalize finalize_quote settle_unless_live matched permitted_or_rejected
    open_at binds_counterparty binds_network owner_approval approval_stands begin_checks
    finalize_gate finalize_terms is_capability_class is_hash is_prefixed_hash is_atomic sort_by
    insert_by validate_money validate_asset validate_network same_asset same_network at_most
    money_int atomic_value is_commitment_digest resolve_matching_accepted_quote quote_input
    match_found match_accepted_quote validate_quote same_domain validate_terms is_set_digest
    valid_digest normalize_digest equal_terms equal_money network_from_domain permits permits_commit
    permits_at permits_checks mandate_digest mandate_bytes terms_digest terms_bytes terms_fields
    canonical_money canonical_asset canonical_network uint32 uint64 text bytes hash32 digest
    hex_encode hex_decode toy_sum total_byte commit_hold committed_hold spend lookup put delete
    record_budget released reserve reserve_input reserve_checked reserve_checks settle_reserve
    committed sum_holds before add_money new_money decimal live validate_mandate seconds_of persist
    saved snapshot
finalizes_reached = refl

agreed_reached : reached.negotiation.agreed ≡ some dear
unfolding new_negotiation run call receive_proposal accept_intent approve_by_owner
    begin_canonicalization open_at binds_counterparty binds_network owner_approval approval_stands
    begin_checks is_capability_class is_hash is_prefixed_hash is_atomic sort_by insert_by
    validate_money validate_asset validate_network same_asset same_network at_most money_int
    atomic_value is_commitment_digest resolve_matching_accepted_quote quote_input match_found
    match_accepted_quote validate_quote same_domain validate_terms is_set_digest valid_digest
    normalize_digest equal_terms equal_money network_from_domain permits permits_commit permits_at
    permits_checks mandate_digest mandate_bytes terms_digest terms_bytes terms_fields
    canonical_money canonical_asset canonical_network uint32 uint64 text bytes hash32 digest
    hex_encode hex_decode toy_sum total_byte commit_hold committed_hold spend lookup put delete
    record_budget released reserve reserve_input reserve_checked reserve_checks settle_reserve
    committed sum_holds before add_money new_money decimal live validate_mandate seconds_of persist
    saved snapshot
agreed_reached = refl

mandate_reached : reached.negotiation.mandate ≡ allowance
unfolding new_negotiation run call receive_proposal accept_intent approve_by_owner
    begin_canonicalization open_at binds_counterparty binds_network owner_approval approval_stands
    begin_checks is_capability_class is_hash is_prefixed_hash is_atomic sort_by insert_by
    validate_money validate_asset validate_network same_asset same_network at_most money_int
    atomic_value is_commitment_digest resolve_matching_accepted_quote quote_input match_found
    match_accepted_quote validate_quote same_domain validate_terms is_set_digest valid_digest
    normalize_digest equal_terms equal_money network_from_domain permits permits_commit permits_at
    permits_checks mandate_digest mandate_bytes terms_digest terms_bytes terms_fields
    canonical_money canonical_asset canonical_network uint32 uint64 text bytes hash32 digest
    hex_encode hex_decode toy_sum total_byte commit_hold committed_hold spend lookup put delete
    record_budget released reserve reserve_input reserve_checked reserve_checks settle_reserve
    committed sum_holds before add_money new_money decimal live validate_mandate seconds_of persist
    saved snapshot
mandate_reached = refl

finalize-run-new_example : approval_stands reached.negotiation ≡ ok tt
unfolding atomic_value
finalize-run-new_example =
    finalize-run-new exchange_id conversation provider allowance (some home) true (some always) noon
      made held_budget calls calm chain some_digest noon dear made_runs finalizes_reached
      agreed_reached (rw mandate_reached (omega arith))
