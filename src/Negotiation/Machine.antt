-- ===== src/Negotiation/Machine.antt =====
-- pkg/negotiation/negotiation.go and `Finalize` of commitment.go: the methods that change a
-- negotiation. What the store and the ledger answer is the environment's.
use tos_messenger.Base.{
  ℕ, ◌+◌, Bool, true, false, ◌&&◌, not, Option, none, some, leb, if◌then◌else◌, Bytes, codes,
  Result, ok, err, require, refuse_if, Time, unix_seconds, u32, u64,
}
use tos_messenger.Canon.Encode.{Hash}
use tos_messenger.Negotiation.Errors.{
  NegotiationError, store_failed, counteroffers_exhausted, nothing_on_table, not_agreed, no_reason,
  already_ended, cannot_commit, no_budget, quote_mismatch, not_canonicalising, no_resolver,
  bad_commitment, nothing_agreed,
}
use tos_messenger.Negotiation.Errors
use tos_messenger.Negotiation.Money.{is_out_of_bounds}
use tos_messenger.Negotiation.Terms.{Terms, validate_terms}
use tos_messenger.Negotiation.Mandate.{live, permits, permits_commit}
use tos_messenger.Negotiation.Budget.{reserve, release, commit_hold}
use tos_messenger.Negotiation.Quote.{
  VerifiedAcceptedQuote, QuoteResolver, resolve_matching_accepted_quote,
}
use tos_messenger.Negotiation.State.{
  finalize_gate, finalize_terms, begin_checks, State, discussing, proposal_pending,
  counterproposal_pending, intent_agreed, canonicalization_pending, finalized, rejected, withdrawn,
  expired, Negotiation, Env, snapshot, is_settled, is_agreed, is_finalized, given, open_at,
  binds_counterparty, binds_network, approval_stands, owner_approval,
}
use tos_messenger.Negotiation.Exec.{Exec, ◌>>=◌, ◌>>◌, lift, this, become, on_budget, when}

-- `n.failure` for the endings that the package words itself.
abbrev exhausted_reason : Bytes
exhausted_reason = codes "counteroffer budget exhausted"

abbrev mandate_expired_reason : Bytes
mandate_expired_reason = codes "the mandate expired"

abbrev terms_expired_reason : Bytes
terms_expired_reason = codes "the agreed terms expired"

abbrev late_reason : Bytes
late_reason = codes "the mandate expired before the commitment existed"

abbrev mismatch_reason : Bytes
mismatch_reason = codes "the finalized quote does not match what was agreed"

abbrev outside_reason : Bytes
outside_reason = codes "the finalized quote falls outside the mandate"

unfoldable pub saved : Bool → Exec (Unit {0})
saved true w = (w, ok tt)
saved false w =
    (record w { negotiation = record w.negotiation { poisoned = true } }, err store_failed)

-- Why a negotiation that is not settled has run out, if it has.
unfoldable pub expiry_reason :
    Result NegotiationError (Unit {0}) → Option Terms → Option ℕ → Option Bytes
expiry_reason (err e) agreed seconds = some mandate_expired_reason
expiry_reason (ok u) (some t) (some seconds) =
    if leb t.not_after_unix seconds then some terms_expired_reason else none
expiry_reason (ok u) _ _ = none

module _ ⦃h : Hash⦄ (env : Env) where
  -- persist
  unfoldable pub persist : Exec (Unit {0})
  unfolding saved
  persist = do n ← this; s ← lift (snapshot n); saved (env.save s)

  -- settle, with `end`
  unfoldable pub settle : State → Bytes → Exec (Unit {0})
  settle state reason = do
    n ← this
    become (record n { state = state; failure = reason; on_table = none })
    persist
    when (n.has_budget && not (is_finalized state)) (on_budget (release env.ledger n.id))

  -- ReceiveProposal
  unfoldable pub receive_proposal : Terms → Time → Exec (Unit {0})
  receive_proposal terms now = do
    n ← this
    lift (open_at n now)
    lift (validate_terms terms)
    lift (binds_counterparty n terms)
    lift (binds_network n terms)
    become (record n { on_table = some terms; state = proposal_pending })
    persist

  -- Counter, with counteroffers left.
  unfoldable pub counter_within : Negotiation → Terms → Time → Exec (Unit {0})
  counter_within n terms now = do
    needs ← lift (permits n.mandate terms now)
    lift (binds_counterparty n terms)
    lift (binds_network n terms)
    become (record n {
      on_table = some terms;
      counteroffers = u32 (n.counteroffers + 1);
      state = counterproposal_pending;
    })
    persist

  -- Counter
  unfoldable pub counter : Terms → Time → Exec (Unit {0})
  counter terms now = do
    n ← this
    lift (open_at n now)
    if leb n.mandate.max_counteroffers n.counteroffers
        then (do settle withdrawn exhausted_reason; lift (err counteroffers_exhausted))
        else counter_within n terms now

  -- AcceptIntent
  unfoldable pub accept_intent : Time → Exec (Unit {0})
  accept_intent now = do
    n ← this
    lift (refuse_if n.poisoned Errors.poisoned)
    lift (open_at n now)
    offer ← lift (given n.on_table nothing_on_table)
    needs ← lift (permits n.mandate offer now)
    when n.has_budget (on_budget (reserve env.ledger n.id offer.price))
    become (record n { agreed = some offer; needs_approval = needs; state = intent_agreed })
    persist

  -- Reopen
  unfoldable pub reopen : Bytes → Time → Exec (Unit {0})
  reopen reason now = do
    n ← this
    lift (require (is_agreed n.state) not_agreed)
    lift (live n.mandate now)
    lift (refuse_if (is_out_of_bounds 512 reason) no_reason)
    become (record n {
      agreed = none;
      needs_approval = false;
      approval = none;
      generation = u64 (n.generation + 1);
      state = discussing;
    })
    persist
    when n.has_budget (on_budget (release env.ledger n.id))

  -- RejectIntent
  unfoldable pub reject_intent : Bytes → Exec (Unit {0})
  reject_intent reason = do
    n ← this
    lift (refuse_if (is_settled n.state) already_ended)
    settle rejected reason

  -- Withdraw
  unfoldable pub withdraw : Bytes → Exec (Unit {0})
  withdraw reason = do
    n ← this
    lift (refuse_if (is_settled n.state) already_ended)
    settle withdrawn reason

  -- ApproveByOwner
  unfoldable pub approve_by_owner : Bytes → Time → Exec (Unit {0})
  approve_by_owner shown now = do
    n ← this
    a ← lift (owner_approval n shown now)
    become (record n { approval = some a })
    persist

  -- DenyByOwner
  unfoldable pub deny_by_owner : Bytes → Exec (Unit {0})
  deny_by_owner reason = do
    n ← this
    lift (require (is_agreed n.state) not_agreed)
    settle rejected reason

  -- BeginCanonicalization
  unfoldable pub begin_canonicalization : Time → Exec (Unit {0})
  begin_canonicalization now = do
    n ← this
    lift (begin_checks n now)
    become (record n { state = canonicalization_pending })
    persist

  unfoldable pub settle_expired : Option Bytes → Exec Bool
  settle_expired none = lift (ok false)
  settle_expired (some reason) = do settle expired reason; lift (ok true)

  -- Expire; the flag beside an error is left out.
  unfoldable pub expire : Time → Exec Bool
  expire now = do
    n ← this
    if is_settled n.state
        then lift (ok false)
        else settle_expired (expiry_reason (live n.mandate now) n.agreed (unix_seconds now))

  -- What follows an expired mandate, a quote that could not be matched, and a quote outside the
  -- mandate: the first and the last end the negotiation, the second only if the quote is another one.
  unfoldable pub settle_unless_live : Result NegotiationError (Unit {0}) → Exec (Unit {0})
  settle_unless_live (ok u) = lift (ok tt)
  settle_unless_live (err e) = do settle expired late_reason; lift (err e)

  unfoldable pub matched :
      Result NegotiationError VerifiedAcceptedQuote → Exec VerifiedAcceptedQuote
  matched (ok quote) = lift (ok quote)
  matched (err quote_mismatch) = do settle rejected mismatch_reason; lift (err quote_mismatch)
  matched (err e) = lift (err e)

  unfoldable pub permitted_or_rejected : Result NegotiationError Bool → Exec (Unit {0})
  permitted_or_rejected (ok needs) = lift (ok tt)
  permitted_or_rejected (err e) = do settle rejected outside_reason; lift (err e)

  -- `Finalize` behind the comparison with the finalized quote.
  unfoldable pub finalize_quote :
      Negotiation → Bytes → Time → VerifiedAcceptedQuote → Exec (Unit {0})
  finalize_quote n commitment now quote = do
    when n.needs_approval (lift (approval_stands n))
    permitted_or_rejected (permits_commit n.mandate quote.terms now)
    become (record n { commitment = commitment; quote = some quote; state = finalized })
    persist
    when n.has_budget (on_budget (commit_hold env.ledger n.id))

  -- Finalize; no resolver is `none`.
  unfoldable pub finalize : Option QuoteResolver → Bytes → Time → Exec (Unit {0})
  finalize resolver commitment now = do
    n ← this
    resolve ← lift (finalize_gate n resolver)
    settle_unless_live (live n.mandate now)
    agreed ← lift (finalize_terms n commitment)
    quote ← matched (resolve_matching_accepted_quote resolve commitment agreed n.network)
    finalize_quote n commitment now quote
