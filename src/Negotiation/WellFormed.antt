-- ===== src/Negotiation/WellFormed.antt =====
-- What holds of every negotiation that calls can lead to, and the transitions that keep it.
use tos_messenger.Base.{
  ◌+◌, ◌≤◌, ◌≡◌, refl, Bool, true, false, Option, some, none, is_some, arith, ltb, leb,
  if◌then◌else◌, Bytes, u32, u64,
}
use tos_messenger.Negotiation.Exact.{amount}
use tos_messenger.Negotiation.Terms.{Terms}
use tos_messenger.Negotiation.Mandate.{Mandate}
use tos_messenger.Negotiation.Quote.{VerifiedAcceptedQuote}
use tos_messenger.Negotiation.State.{
  State, discussing, proposal_pending, counterproposal_pending, intent_agreed,
  canonicalization_pending, finalized, Negotiation, Approval, is_agreed, is_canonicalising,
  is_finalized,
}

-- Whether the owner has to decide on what was agreed.
abbrev pub asks : Mandate → Option Terms → Bool
asks m none = false
asks m (some t) = ltb (amount m.approval_above) (amount t.price)

abbrev pub is_bound : State → Bool
is_bound intent_agreed = true
is_bound canonicalization_pending = true
is_bound finalized = true
is_bound _ = false

-- The owner is asked exactly when the agreed price is above the approval point, an agreement has
-- terms, a finalized negotiation has a quote, and the counteroffers are within the mandate.
pub record WellFormed (n : Negotiation) : Type 0 where
  pub asks_owner : n.needs_approval ≡ asks n.mandate n.agreed
  pub has_terms : (if is_bound n.state then is_some n.agreed else true) ≡ true
  pub has_quote : (if is_finalized n.state then is_some n.quote else true) ≡ true
  pub within : n.counteroffers ≤ n.mandate.max_counteroffers

module _ (n : Negotiation) (wf : WellFormed n) where
  pub proposed-WellFormed :
      (t : Terms) → WellFormed (record n { on_table = some t; state = proposal_pending })
  proposed-WellFormed t = record {
    asks_owner = wf.asks_owner;
    has_terms = refl;
    has_quote = refl;
    within = wf.within;
  }

  pub countered-WellFormed :
      (t : Terms)
      → leb n.mandate.max_counteroffers n.counteroffers ≡ false
      → WellFormed (record n {
        on_table = some t;
        counteroffers = u32 (n.counteroffers + 1);
        state = counterproposal_pending;
      })
  countered-WellFormed t h = record {
    asks_owner = wf.asks_owner;
    has_terms = refl;
    has_quote = refl;
    within = ground arith;
  }

  pub accepted-WellFormed :
      (t : Terms) (needs : Bool)
      → needs ≡ ltb (amount n.mandate.approval_above) (amount t.price)
      → WellFormed (record n { agreed = some t; needs_approval = needs; state = intent_agreed })
  accepted-WellFormed t needs h = record {
    asks_owner = h;
    has_terms = refl;
    has_quote = refl;
    within = wf.within;
  }

  pub reopened-WellFormed : WellFormed (record n {
    agreed = none;
    needs_approval = false;
    approval = none;
    generation = u64 (n.generation + 1);
    state = discussing;
  })
  reopened-WellFormed = record {
    asks_owner = refl;
    has_terms = refl;
    has_quote = refl;
    within = wf.within;
  }

  pub approved-WellFormed : (a : Approval) → WellFormed (record n { approval = some a })
  approved-WellFormed a = record {
    asks_owner = wf.asks_owner;
    has_terms = wf.has_terms;
    has_quote = wf.has_quote;
    within = wf.within;
  }

  pub poisoned-WellFormed : WellFormed (record n { poisoned = true })
  poisoned-WellFormed = record {
    asks_owner = wf.asks_owner;
    has_terms = wf.has_terms;
    has_quote = wf.has_quote;
    within = wf.within;
  }

  pub begun-WellFormed :
      is_agreed n.state ≡ true → WellFormed (record n { state = canonicalization_pending })
  begun-WellFormed h = record {
    asks_owner = wf.asks_owner;
    has_terms = agreed n.state h wf.has_terms;
    has_quote = refl;
    within = wf.within;
  }
    where
      agreed :
          (s : State)
          → is_agreed s ≡ true
          → (if is_bound s then is_some n.agreed else true) ≡ true
          → is_some n.agreed ≡ true
      agreed intent_agreed h k = k
      agreed _ h k = cc

  pub finalized-WellFormed :
      (commitment : Bytes) (quote : VerifiedAcceptedQuote)
      → is_canonicalising n.state ≡ true
      → WellFormed (record n { commitment = commitment; quote = some quote; state = finalized })
  finalized-WellFormed commitment quote h = record {
    asks_owner = wf.asks_owner;
    has_terms = pending n.state h wf.has_terms;
    has_quote = refl;
    within = wf.within;
  }
    where
      pending :
          (s : State)
          → is_canonicalising s ≡ true
          → (if is_bound s then is_some n.agreed else true) ≡ true
          → is_some n.agreed ≡ true
      pending canonicalization_pending h k = k
      pending _ h k = cc

  -- The endings that are no finalization.
  pub ended-WellFormed :
      (s : State) (reason : Bytes)
      → is_bound s ≡ false
      → WellFormed (record n { state = s; failure = reason; on_table = none })
  ended-WellFormed s reason h = record {
    asks_owner = wf.asks_owner;
    has_terms = rw h refl;
    has_quote = unbound s h;
    within = wf.within;
  }
    where
      unbound :
          (s : State)
          → is_bound s ≡ false
          → (if is_finalized s then is_some n.quote else true) ≡ true
      unbound finalized h = cc
      unbound _ h = refl
