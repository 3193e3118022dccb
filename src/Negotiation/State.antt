-- ===== src/Negotiation/State.antt =====
-- pkg/negotiation/negotiation.go: the state of a negotiation and the tests of its methods, and
-- `Snapshot` of snapshot.go. A snapshot's schema is a constant and is left out.
use tos_messenger.Base.{
  if◌then◌else◌, ℕ, Bool, true, false, Option, none, some, ◌==◌, Bytes, eq_bytes, Result, ok, err,
  require, refuse_if, Time, unix_seconds, ◌>>=◌, ◌>>◌,
}
use tos_messenger.Canon.Encode.{Hash}
use tos_messenger.Negotiation.Errors.{
  no_resolver, no_budget, cannot_commit, bad_commitment, not_canonicalising, mandate_changed,
  reopened, other_terms_approved, terms_changed, nothing_agreed, approval_not_needed, no_approval,
  not_agreed, already_agreed, being_canonicalised, already_ended, poisoned, other_provider,
  terms_elsewhere, NegotiationError,
}
use tos_messenger.Negotiation.Money.{NetworkDomain, same_network, network_from_domain}
use tos_messenger.Negotiation.Terms.{is_commitment_digest, Terms, terms_digest}
use tos_messenger.Negotiation.Mandate.{is_commit, Mandate, live, mandate_digest, seconds_of}
use tos_messenger.Negotiation.Budget.{Budget, Ledger}
use tos_messenger.Negotiation.Quote.{QuoteResolver, VerifiedAcceptedQuote}

pub data State : Type 0 where
  discussing proposal_pending counterproposal_pending intent_agreed canonicalization_pending : State
  finalized rejected withdrawn expired : State

pub record Approval : Type 0 where
  pub terms_digest : Bytes
  pub generation : ℕ  -- uint64
  pub mandate_digest : Bytes
  pub at_unix : ℕ  -- uint64

-- The budget pointer is whether there is a budget; the budget itself stands beside the negotiation.
pub record Negotiation : Type 0 where
  pub id : Bytes
  pub conversation_id : Bytes
  pub counterparty_agent_id : Bytes
  pub mandate : Mandate
  pub state : State
  pub generation : ℕ  -- uint64
  pub counteroffers : ℕ  -- uint32
  pub on_table : Option Terms
  pub agreed : Option Terms
  pub needs_approval : Bool
  pub network : NetworkDomain
  pub approval : Option Approval
  pub commitment : Bytes
  pub quote : Option VerifiedAcceptedQuote
  pub failure : Bytes
  pub has_budget : Bool
  pub poisoned : Bool

pub record Snapshot : Type 0 where
  pub mandate_digest : Bytes
  pub id : Bytes
  pub conversation_id : Bytes
  pub counterparty_agent_id : Bytes
  pub network : NetworkDomain
  pub state : State
  pub generation : ℕ
  pub counteroffers : ℕ
  pub needs_approval : Bool
  pub on_table : Option Terms
  pub agreed : Option Terms
  pub approval : Option Approval
  pub commitment : Bytes
  pub quote : Option VerifiedAcceptedQuote
  pub failure : Bytes

-- Whether `Store.Save` succeeds, and the ledger behind the budget.
pub record Env : Type 0 where
  pub save : Snapshot → Bool
  pub ledger : Ledger

pub record World : Type 0 where
  pub negotiation : Negotiation
  pub budget : Budget

-- settled
abbrev pub is_settled : State → Bool
is_settled finalized = true
is_settled rejected = true
is_settled withdrawn = true
is_settled expired = true
is_settled _ = false

abbrev pub is_agreed : State → Bool
is_agreed intent_agreed = true
is_agreed _ = false

abbrev pub is_canonicalising : State → Bool
is_canonicalising canonicalization_pending = true
is_canonicalising _ = false

abbrev pub is_finalized : State → Bool
is_finalized finalized = true
is_finalized _ = false

abbrev pub given : {A : Type 0} → Option A → NegotiationError → Result NegotiationError A
given none e = err e
given (some a) e = ok a

-- open
unfoldable pub open_at : Negotiation → Time → Result NegotiationError (Unit {0})
open_at n now = do
  refuse_if n.poisoned poisoned
  refuse_if (is_settled n.state) already_ended
  refuse_if (is_canonicalising n.state) being_canonicalised
  refuse_if (is_agreed n.state) already_agreed
  live n.mandate now

-- bindsCounterparty
unfoldable pub binds_counterparty : Negotiation → Terms → Result NegotiationError (Unit {0})
binds_counterparty n t =
    require (eq_bytes t.provider_agent_id n.counterparty_agent_id) other_provider

-- bindsNetwork
unfoldable pub binds_network : Negotiation → Terms → Result NegotiationError (Unit {0})
binds_network n t = do
  bound ← network_from_domain n.network
  require (same_network t.price.asset.network bound) terms_elsewhere

-- Snapshot
unfoldable pub snapshot : ⦃h : Hash⦄ → Negotiation → Result NegotiationError Snapshot
snapshot n = do
  digest ← mandate_digest n.mandate
  ok (record {
    mandate_digest = digest;
    id = n.id;
    conversation_id = n.conversation_id;
    counterparty_agent_id = n.counterparty_agent_id;
    network = n.network;
    state = n.state;
    generation = n.generation;
    counteroffers = n.counteroffers;
    needs_approval = n.needs_approval;
    on_table = n.on_table;
    agreed = n.agreed;
    approval = n.approval;
    commitment = n.commitment;
    quote = n.quote;
    failure = n.failure;
  })

-- approvalStands
unfoldable pub approval_stands : ⦃h : Hash⦄ → Negotiation → Result NegotiationError (Unit {0})
approval_stands n = do
  a ← given n.approval no_approval
  agreed ← given n.agreed nothing_agreed
  current ← terms_digest agreed
  require (eq_bytes a.terms_digest current) terms_changed
  require (a.generation == n.generation) reopened
  mandate ← mandate_digest n.mandate
  require (eq_bytes a.mandate_digest mandate) mandate_changed

-- The owner's decision, of the tests of `ApproveByOwner` on the terms.
unfoldable pub owner_approval :
    ⦃h : Hash⦄ → Negotiation → Bytes → Time → Result NegotiationError Approval
owner_approval n shown now = do
  require (is_agreed n.state) not_agreed
  live n.mandate now
  require n.needs_approval approval_not_needed
  agreed ← given n.agreed nothing_agreed
  current ← terms_digest agreed
  require (eq_bytes shown current) other_terms_approved
  mandate ← mandate_digest n.mandate
  seconds ← seconds_of (unix_seconds now)
  ok (record {
    terms_digest = current;
    generation = n.generation;
    mandate_digest = mandate;
    at_unix = seconds;
  })

-- The tests at the head of `Finalize`, in their order.
unfoldable pub finalize_gate :
    Negotiation → Option QuoteResolver → Result NegotiationError QuoteResolver
finalize_gate n resolver = do
  refuse_if n.poisoned poisoned
  require (is_canonicalising n.state) not_canonicalising
  resolve ← given resolver no_resolver
  require (is_commit n.mandate.authority) cannot_commit
  require n.has_budget no_budget
  ok resolve

-- The tests between the mandate's and the resolver's.
unfoldable pub finalize_terms : Negotiation → Bytes → Result NegotiationError Terms
finalize_terms n commitment = do
  require (is_commitment_digest commitment) bad_commitment
  given n.agreed nothing_agreed

-- The tests of `BeginCanonicalization`.
unfoldable pub begin_checks : ⦃h : Hash⦄ → Negotiation → Time → Result NegotiationError (Unit {0})
begin_checks n now = do
  refuse_if n.poisoned poisoned
  require (is_agreed n.state) not_agreed
  require (is_commit n.mandate.authority) cannot_commit
  require n.has_budget no_budget
  live n.mandate now
  if n.needs_approval then approval_stands n else ok tt
