-- ===== src/Examples/Approving.antt =====
-- Examples on digests of terms and the owner's approvals.
use tos_messenger.Base.{
  ◌≡◌, ◌⊎◌, refl, arith, some, [], Bytes, Result, ok, err, true, is_capability_class, is_hash,
  is_prefixed_hash, is_atomic,
}
use tos_messenger.Canon.Encode.{uint32, uint64, text, bytes, hash32, digest, valid_digest}
use tos_messenger.Canon.Hex.{hex_decode, hex_encode}
use tos_messenger.Negotiation.Errors.{NegotiationError}
use tos_messenger.Negotiation.Amount.{atomic_value}
use tos_messenger.Negotiation.Money.{
  validate_money, validate_asset, validate_network, same_asset, same_network, at_most, money_int,
  canonical_network, canonical_asset, canonical_money,
}
use tos_messenger.Negotiation.Terms.{
  is_commitment_digest, validate_terms, is_set_digest, normalize_digest, terms_digest, terms_bytes,
  terms_fields,
}
use tos_messenger.Negotiation.Mandate.{
  live, validate_mandate, seconds_of, mandate_digest, mandate_bytes,
}
use tos_messenger.Negotiation.State.{
  Negotiation, Approval, World, intent_agreed, canonicalization_pending, owner_approval,
  approval_stands, begin_checks, snapshot,
}
use tos_messenger.Negotiation.Machine.{begin_canonicalization, persist, saved}
use tos_messenger.Negotiation.Binding.{TermsCollide, Fits, terms_digest_binds}
use tos_messenger.Negotiation.Approvals.{approval-binds, Ready, begin_canonicalization-Ready}
use tos_messenger.Examples.Data.{
  toy_hash, toy_sum, total_byte, pending, held_budget, calm, noon, deal, allowance,
}

abbrev pub value_of : Result NegotiationError Bytes → Bytes
value_of (ok b) = b
value_of (err e) = []

abbrev deal_digest : Bytes
deal_digest = value_of (terms_digest deal)

digest_runs : terms_digest deal ≡ ok deal_digest
unfolding terms_digest terms_bytes terms_fields validate_terms is_commitment_digest is_set_digest
    normalize_digest valid_digest hex_decode is_capability_class validate_money validate_asset
    validate_network is_hash is_prefixed_hash is_atomic canonical_money canonical_asset
    canonical_network hash32
digest_runs = refl

deal-Fits : Fits deal
deal-Fits = (omega arith, omega arith)

terms_digest_binds_example : (deal ≡ deal) ⊎ TermsCollide deal deal
terms_digest_binds_example =
    terms_digest_binds deal deal deal_digest deal-Fits deal-Fits digest_runs digest_runs

abbrev asked : Negotiation
asked = record pending { state = intent_agreed; needs_approval = true }

abbrev yes : Approval
yes = record {
  terms_digest = deal_digest;
  generation = 0;
  mandate_digest = value_of (mandate_digest allowance);
  at_unix = 500;
}

abbrev answered : Negotiation
answered = record asked { approval = some yes }

approval_runs : owner_approval asked deal_digest noon ≡ ok yes
unfolding owner_approval live validate_mandate seconds_of mandate_digest mandate_bytes at_most
    money_int atomic_value same_asset same_network terms_digest terms_bytes terms_fields
    validate_terms is_commitment_digest is_set_digest normalize_digest valid_digest hex_decode
    is_capability_class validate_money validate_asset validate_network is_hash is_prefixed_hash
    is_atomic canonical_money canonical_asset canonical_network hash32 digest hex_encode toy_sum
    total_byte uint32 uint64 text bytes
approval_runs = refl

approval_holds : approval_stands answered ≡ ok tt
unfolding approval_stands validate_mandate mandate_digest mandate_bytes at_most money_int
    atomic_value same_asset same_network terms_digest terms_bytes terms_fields validate_terms
    is_commitment_digest is_set_digest normalize_digest valid_digest hex_decode is_capability_class
    validate_money validate_asset validate_network is_hash is_prefixed_hash is_atomic
    canonical_money canonical_asset canonical_network hash32 digest hex_encode toy_sum total_byte
    uint32 uint64 text bytes
approval_holds = refl

approval-binds_example :
    ((deal ≡ deal) ⊎ TermsCollide deal deal)
    × (0 ≡ asked.generation)
    × (mandate_digest allowance ≡ mandate_digest asked.mandate)
approval-binds_example =
    approval-binds asked answered deal_digest noon yes deal deal deal-Fits deal-Fits approval_runs
      refl refl refl approval_holds

abbrev agreed_world : World
agreed_world = record { negotiation = answered; budget = held_budget }

begin_runs : (begin_canonicalization calm noon agreed_world).1 ≡ ok tt
unfolding begin_canonicalization begin_checks persist saved snapshot live seconds_of approval_stands
    validate_mandate mandate_digest mandate_bytes at_most money_int atomic_value same_asset
    same_network terms_digest terms_bytes terms_fields validate_terms is_commitment_digest
    is_set_digest normalize_digest valid_digest hex_decode is_capability_class validate_money
    validate_asset validate_network is_hash is_prefixed_hash is_atomic canonical_money
    canonical_asset canonical_network hash32 digest hex_encode toy_sum total_byte uint32 uint64 text
    bytes
begin_runs = refl

begin_canonicalization-Ready_example :
    Ready answered noon
    × ((begin_canonicalization calm noon agreed_world).0 ≡ record agreed_world {
      negotiation = record answered { state = canonicalization_pending };
    })
begin_canonicalization-Ready_example =
    begin_canonicalization-Ready calm noon agreed_world begin_runs
