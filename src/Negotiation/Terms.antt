-- ===== src/Negotiation/Terms.antt =====
-- pkg/negotiation/terms.go
use tos_messenger.Base.{
  ℕ, Bool, ◌&&◌, ◌||◌, Option, none, some, [], ◌∷◌, ◌++◌, ◌==◌, Bytes, codes, eq_bytes,
  is_prefixed_hash, is_capability_class, strip_prefix, Result, ok, require, refuse_if, map_err,
  ◌>>=◌, ◌>>◌,
}
use tos_messenger.Canon.Encode.{uint64, text, Hash, digest, valid_digest, sha256_prefix}
use tos_messenger.Negotiation.Errors.{
  terms_without_expiry, no_digest, no_provider, no_class, no_version, no_capability,
  canonical_failed, NegotiationError,
}
use tos_messenger.Negotiation.Money.{
  Money, validate_money, equal_money, canonical_money, is_out_of_bounds, code_hash_prefix,
}

pub record Terms : Type 0 where
  pub capability_id : Bytes
  pub capability_version : Bytes
  pub capability_class : Bytes
  pub provider_agent_id : Bytes
  pub manifest_digest : Bytes
  pub transport_binding_digest : Bytes
  pub price : Money
  pub escrow_terms_digest : Bytes
  pub dispute_policy_digest : Bytes
  pub not_after_unix : ℕ  -- uint64

-- digestPattern
unfoldable pub is_commitment_digest : Bytes → Bool
is_commitment_digest s = is_prefixed_hash sha256_prefix s || is_prefixed_hash code_hash_prefix s

with_sha256 : Bytes → Option Bytes → Bytes
with_sha256 original none = original
with_sha256 original (some []) = original
with_sha256 original (some (c ∷ r)) = sha256_prefix ++ (c ∷ r)

-- normalizeDigest
unfoldable pub normalize_digest : Bytes → Bytes
unfolding with_sha256
normalize_digest s = with_sha256 s (strip_prefix code_hash_prefix s)

-- The test on one of the four digests.
unfoldable pub is_set_digest : Bytes → Bool
is_set_digest s = is_commitment_digest s && valid_digest (normalize_digest s)

abbrev pub agent_prefix : Bytes
agent_prefix = codes "agent_"

abbrev pub capability_prefix : Bytes
capability_prefix = codes "cap_"

-- Terms.Validate. The source walks the four digests in the order of a Go map, which is not fixed,
-- and says which one is missing.
unfoldable pub validate_terms : Terms → Result NegotiationError (Unit {0})
validate_terms t = do
  require (is_prefixed_hash capability_prefix t.capability_id) no_capability
  refuse_if (is_out_of_bounds 64 t.capability_version) no_version
  require (is_capability_class t.capability_class) no_class
  require (is_prefixed_hash agent_prefix t.provider_agent_id) no_provider
  require
      (is_set_digest t.manifest_digest
        && is_set_digest t.transport_binding_digest
        && is_set_digest t.escrow_terms_digest
        && is_set_digest t.dispute_policy_digest)
      no_digest
  validate_money t.price
  refuse_if (t.not_after_unix == 0) terms_without_expiry

abbrev pub domain_negotiation_terms : Bytes
domain_negotiation_terms = codes "tos.messaging.negotiation-terms.v3" ++ (0 ∷ [])

-- The bytes behind the domain separator.
unfoldable pub terms_fields : Terms → Bytes → Bytes
terms_fields t price =
    text t.capability_id
    ++ (text t.capability_version
        ++ (text t.capability_class
            ++ (text t.provider_agent_id
                ++ (text t.manifest_digest
                    ++ (text t.transport_binding_digest
                        ++ (price
                            ++ (text t.escrow_terms_digest
                                ++ (text t.dispute_policy_digest ++ uint64 t.not_after_unix))))))))

-- Terms.CanonicalBytes
unfoldable pub terms_bytes : Terms → Result NegotiationError Bytes
terms_bytes t = do
  validate_terms t
  price ← map_err (λ _. canonical_failed) (canonical_money t.price)
  ok (domain_negotiation_terms ++ terms_fields t price)

-- Terms.Digest
unfoldable pub terms_digest : ⦃h : Hash⦄ → Terms → Result NegotiationError Bytes
terms_digest t = do preimage ← terms_bytes t; ok (digest preimage)

-- Terms.Equal
unfoldable pub equal_terms : Terms → Terms → Bool
equal_terms t other =
    eq_bytes t.capability_id other.capability_id
    && eq_bytes t.capability_version other.capability_version
    && eq_bytes t.capability_class other.capability_class
    && eq_bytes t.provider_agent_id other.provider_agent_id
    && eq_bytes t.manifest_digest other.manifest_digest
    && eq_bytes t.transport_binding_digest other.transport_binding_digest
    && equal_money t.price other.price
    && eq_bytes t.escrow_terms_digest other.escrow_terms_digest
    && eq_bytes t.dispute_policy_digest other.dispute_policy_digest
    && t.not_after_unix == other.not_after_unix
