-- ===== src/Negotiation/Mandate.antt =====
-- pkg/negotiation/mandate.go and intent.go
use tos_messenger.Base.{
  ℕ, Bool, true, false, ◌&&◌, ◌||◌, not, Option, none, some, [], ◌∷◌, ◌++◌, ltb, leb, ◌==◌, Bytes,
  codes, length, eq_bytes, is_capability_class, Result, ok, err, require, refuse_if, map_err, ◌>>=◌,
  ◌>>◌, Time, unix_seconds,
}
use tos_messenger.Canon.Encode.{uint32, uint64, text, Hash, digest}
use tos_messenger.Negotiation.Errors.{
  NegotiationError, outlives_mandate, conversation_only, propose_only, not_covered, other_asset,
  above_ceiling, terms_expired, no_objective, bad_authority, bad_class, mandate_assets_differ,
  approval_above_ceiling, bad_counteroffer_bound, mandate_without_expiry, bad_time, mandate_expired,
  canonical_failed, no_amount, nothing_named, rendering_conflict, terms_without_expiry,
}
use tos_messenger.Negotiation.Money.{
  Money, validate_money, same_asset, at_most, equal_money, canonical_money, is_out_of_bounds,
}
use tos_messenger.Negotiation.Terms.{Terms, validate_terms}

-- `unknown_authority` stands for every string that names no level.
pub data Authority : Type 0 where
  converse propose commit : Authority
  unknown_authority : Bytes → Authority

is_known_authority : Authority → Bool
is_known_authority (unknown_authority s) = false
is_known_authority _ = true

authority_text : Authority → Bytes
authority_text converse = codes "conversation"
authority_text propose = codes "proposal"
authority_text commit = codes "commit"
authority_text (unknown_authority s) = s

abbrev pub is_commit : Authority → Bool
is_commit commit = true
is_commit _ = false

abbrev pub is_converse : Authority → Bool
is_converse converse = true
is_converse _ = false

abbrev pub max_counteroffers_bound : ℕ
max_counteroffers_bound = 32

pub record Mandate : Type 0 where
  pub objective : Bytes
  pub authority : Authority
  pub capability_class : Bytes
  pub max_total : Money
  pub approval_above : Money
  pub max_counteroffers : ℕ  -- uint32
  pub expires_at_unix : ℕ  -- uint64

-- Mandate.Validate
unfoldable pub validate_mandate : Mandate → Result NegotiationError (Unit {0})
unfolding is_known_authority
validate_mandate m = do
  refuse_if (is_out_of_bounds 512 m.objective) no_objective
  require (is_known_authority m.authority) bad_authority
  refuse_if (not (is_capability_class m.capability_class) || ltb 64 (length m.capability_class))
      bad_class
  validate_money m.max_total
  validate_money m.approval_above
  require (same_asset m.max_total.asset m.approval_above.asset) mandate_assets_differ
  within ← at_most m.approval_above m.max_total
  require within approval_above_ceiling
  refuse_if (m.max_counteroffers == 0 || ltb max_counteroffers_bound m.max_counteroffers)
      bad_counteroffer_bound
  refuse_if (m.expires_at_unix == 0) mandate_without_expiry

-- The seconds of a time that is not before the epoch.
unfoldable pub seconds_of : Option ℕ → Result NegotiationError ℕ
seconds_of none = err bad_time
seconds_of (some n) = ok n

-- Mandate.Live
unfoldable pub live : Mandate → Time → Result NegotiationError (Unit {0})
live m now = do
  validate_mandate m
  seconds ← seconds_of (unix_seconds now)
  refuse_if (leb m.expires_at_unix seconds) mandate_expired

-- The tests of `permits` behind the two validations.
unfoldable pub permits_checks : Mandate → Terms → ℕ → Bool → Result NegotiationError Bool
permits_checks m terms seconds require_commit = do
  refuse_if (is_converse m.authority) conversation_only
  refuse_if (require_commit && not (is_commit m.authority)) propose_only
  require (eq_bytes terms.capability_class m.capability_class) not_covered
  require (same_asset terms.price.asset m.max_total.asset) other_asset
  within ← at_most terms.price m.max_total
  require within above_ceiling
  refuse_if (leb terms.not_after_unix seconds) terms_expired
  refuse_if (ltb m.expires_at_unix terms.not_after_unix) outlives_mandate
  under ← at_most terms.price m.approval_above
  ok (not under)

-- permits
unfoldable pub permits_at : Mandate → Terms → Time → Bool → Result NegotiationError Bool
permits_at m terms now require_commit = do
  live m now
  validate_terms terms
  seconds ← seconds_of (unix_seconds now)
  permits_checks m terms seconds require_commit

-- Permits
unfoldable pub permits : Mandate → Terms → Time → Result NegotiationError Bool
permits m terms now = permits_at m terms now false

-- PermitsCommit
unfoldable pub permits_commit : Mandate → Terms → Time → Result NegotiationError Bool
permits_commit m terms now = permits_at m terms now true

abbrev pub domain_mandate : Bytes
domain_mandate = codes "tos.messaging.mandate.v3" ++ (0 ∷ [])

-- Mandate.CanonicalBytes
unfoldable pub mandate_bytes : Mandate → Result NegotiationError Bytes
unfolding authority_text
mandate_bytes m = do
  validate_mandate m
  total ← map_err (λ _. canonical_failed) (canonical_money m.max_total)
  above ← map_err (λ _. canonical_failed) (canonical_money m.approval_above)
  ok (
      domain_mandate
      ++ (text m.objective
          ++ (text (authority_text m.authority)
              ++ (text m.capability_class
                  ++ (total
                      ++ (above ++ (uint32 m.max_counteroffers ++ uint64 m.expires_at_unix)))))))

-- Mandate.Digest
unfoldable pub mandate_digest : ⦃h : Hash⦄ → Mandate → Result NegotiationError Bytes
mandate_digest m = do preimage ← mandate_bytes m; ok (digest preimage)

-- intent.go
pub record Candidate : Type 0 where
  pub capability_id : Bytes
  pub capability_version : Bytes
  pub capability_class : Bytes
  pub provider_agent_id : Bytes
  pub manifest_digest : Bytes
  pub transport_binding_digest : Bytes
  pub escrow_terms_digest : Bytes
  pub dispute_policy_digest : Bytes
  pub price : Money
  pub not_after_unix : ℕ  -- uint64
  pub rendered_price : Option Money

unfoldable pub check_rendering : Option Money → Money → Result NegotiationError (Unit {0})
check_rendering none price = ok tt
check_rendering (some rendered) price = do
  validate_money rendered
  require (equal_money rendered price) rendering_conflict

unfoldable pub candidate_terms : Candidate → Terms
candidate_terms c = record {
  capability_id = c.capability_id;
  capability_version = c.capability_version;
  capability_class = c.capability_class;
  provider_agent_id = c.provider_agent_id;
  manifest_digest = c.manifest_digest;
  transport_binding_digest = c.transport_binding_digest;
  price = c.price;
  escrow_terms_digest = c.escrow_terms_digest;
  dispute_policy_digest = c.dispute_policy_digest;
  not_after_unix = c.not_after_unix;
}

-- Compile
unfoldable pub compile : Candidate → Mandate → Time → Result NegotiationError (Terms × Bool)
compile c m now = do
  validate_money c.price
  refuse_if (eq_bytes c.price.atomic (codes "0")) no_amount
  refuse_if
      (length c.capability_id == 0
        || length c.capability_version == 0
        || length c.capability_class == 0)
      nothing_named
  refuse_if (c.not_after_unix == 0) terms_without_expiry
  let t = candidate_terms c
  validate_terms t
  check_rendering c.rendered_price t.price
  needs_approval ← permits m t now
  ok (t, needs_approval)
