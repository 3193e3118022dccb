-- ===== src/Examples/Resuming.antt =====
-- A negotiation written down and taken up again.
use tos_messenger.Base.{
  ◌≡◌, refl, true, false, none, some, [], ◌++◌, codes, ok, is_capability_class, is_hash,
  is_prefixed_hash, is_atomic, is_lower_hex, is_digit,
}
use tos_messenger.Canon.Encode.{uint32, uint64, text, bytes, hash32, digest, valid_digest}
use tos_messenger.Canon.Hex.{hex_decode, hex_encode}
use tos_messenger.Negotiation.Amount.{atomic_value, decimal}
use tos_messenger.Negotiation.Money.{
  validate_money, validate_asset, validate_network, same_asset, same_network, at_most, money_int,
  network_from_domain, canonical_network, canonical_asset, canonical_money,
}
use tos_messenger.Negotiation.Terms.{
  validate_terms, is_set_digest, is_commitment_digest, normalize_digest,
}
use tos_messenger.Negotiation.Mandate.{validate_mandate, mandate_digest, mandate_bytes}
use tos_messenger.Negotiation.State.{Negotiation, Snapshot, snapshot, proposal_pending}
use tos_messenger.Negotiation.Restore.{
  restore_negotiation, restored, validate_snapshot, terms_bound, evidence_bound,
  restore_negotiation-snapshot,
}
use tos_messenger.Examples.Data.{
  toy_hash, toy_sum, total_byte, hex64, home, provider, deal, allowance, exchange_id,
}
use tos_messenger.Examples.Approving.{value_of}

abbrev stored : Snapshot
stored = record {
  mandate_digest = value_of (mandate_digest allowance);
  id = exchange_id;
  conversation_id = codes "conv_" ++ hex64;
  counterparty_agent_id = provider;
  network = some home;
  state = proposal_pending;
  generation = 0;
  counteroffers = 0;
  needs_approval = false;
  on_table = some deal;
  agreed = none;
  approval = none;
  commitment = [];
  quote = none;
  failure = [];
}

abbrev resumed : Negotiation
resumed = restored stored allowance true

resumes_stored : restore_negotiation stored allowance true true ≡ ok resumed
unfolding restore_negotiation restored validate_snapshot terms_bound evidence_bound mandate_digest
    mandate_bytes validate_mandate is_capability_class is_hash is_prefixed_hash is_atomic
    is_lower_hex is_digit validate_money validate_asset validate_network same_asset same_network
    at_most money_int atomic_value decimal validate_terms is_set_digest is_commitment_digest
    normalize_digest network_from_domain canonical_network canonical_asset canonical_money uint32
    uint64 text bytes hash32 digest valid_digest hex_encode hex_decode toy_sum total_byte
resumes_stored = refl

restore_negotiation-snapshot_example : snapshot resumed ≡ ok stored
restore_negotiation-snapshot_example =
    restore_negotiation-snapshot stored allowance true true resumed resumes_stored
