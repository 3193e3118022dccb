-- ===== src/Negotiation/Quote.antt =====
-- pkg/negotiation/commitment.go, without `Finalize`. The chain's resolver is the caller's: a
-- function from a commitment to what it finds. Of a `ChainReference` the code reads the finalized
-- checkpoint.
use tos_messenger.Base.{
  ℕ, Bool, false, ◌&&◌, not, Option, none, some, ◌==◌, Bytes, eq_bytes, Result, ok, err, require,
  refuse_if, map_err, ◌>>=◌, ◌>>◌,
}
use tos_messenger.Negotiation.Errors.{
  quote_without_time, quote_elsewhere, quote_without_network, not_final, bad_commitment, no_quote,
  quote_mismatch, NegotiationError,
}
use tos_messenger.Negotiation.Money.{NetworkDomain, same_network, network_from_domain}
use tos_messenger.Negotiation.Terms.{Terms, validate_terms, equal_terms, is_commitment_digest}

pub record VerifiedAcceptedQuote : Type 0 where
  pub commitment : Bytes
  pub terms : Terms
  pub reference : Option ℕ
  pub network : NetworkDomain
  pub finalized_at_unix : ℕ  -- uint64

abbrev is_final_reference : Option ℕ → Bool
is_final_reference none = false
is_final_reference (some checkpoint) = not (checkpoint == 0)

-- VerifiedAcceptedQuote.Validate
unfoldable pub validate_quote : VerifiedAcceptedQuote → Result NegotiationError (Unit {0})
validate_quote q = do
  require (is_commitment_digest q.commitment) bad_commitment
  validate_terms q.terms
  require (is_final_reference q.reference) not_final
  read ← map_err (λ _. quote_without_network) (network_from_domain q.network)
  require (same_network q.terms.price.asset.network read) quote_elsewhere
  refuse_if (q.finalized_at_unix == 0) quote_without_time

-- sameNetwork
unfoldable pub same_domain : NetworkDomain → NetworkDomain → Bool
same_domain (some a) (some b) = same_network a b
same_domain _ _ = false

-- The input checks that `ResolveMatchingAcceptedQuote` and `MatchAcceptedQuote` share.
unfoldable pub quote_input : Bytes → Terms → NetworkDomain → Result NegotiationError (Unit {0})
quote_input commitment expected network = do
  require (is_commitment_digest commitment) bad_commitment
  validate_terms expected
  bound ← network_from_domain network
  ok tt

-- MatchAcceptedQuote
unfoldable pub match_accepted_quote :
    VerifiedAcceptedQuote
    → Bytes
    → Terms
    → NetworkDomain
    → Result NegotiationError VerifiedAcceptedQuote
match_accepted_quote q commitment expected network = do
  quote_input commitment expected network
  validate_quote q
  require
      (eq_bytes q.commitment commitment
        && equal_terms expected q.terms
        && same_domain network q.network)
      quote_mismatch
  ok q

abbrev pub QuoteResolver : Type 0
QuoteResolver = Bytes → Result NegotiationError (Option VerifiedAcceptedQuote)

unfoldable pub match_found :
    Option VerifiedAcceptedQuote
    → Bytes
    → Terms
    → NetworkDomain
    → Result NegotiationError VerifiedAcceptedQuote
match_found none commitment expected network = err no_quote
match_found (some q) commitment expected network =
    match_accepted_quote q commitment expected network

-- ResolveMatchingAcceptedQuote, with a resolver that is not nil.
unfoldable pub resolve_matching_accepted_quote :
    QuoteResolver → Bytes → Terms → NetworkDomain → Result NegotiationError VerifiedAcceptedQuote
resolve_matching_accepted_quote resolver commitment expected network = do
  quote_input commitment expected network
  found ← resolver commitment
  match_found found commitment expected network
