-- ===== src/Negotiation/Owner.antt =====
-- What the owner of a negotiation can rely on, from `New` to `Finalize`.
use tos_messenger.Base.{
  ℕ, ◌≡◌, ◌<◌, ap, ◌∙◌, true, Bool, Option, some, List, arith, ltb, Bytes, ok, Time,
}
use tos_messenger.Canon.Encode.{Hash}
use tos_messenger.Negotiation.Money.{NetworkDomain}
use tos_messenger.Negotiation.Exact.{amount}
use tos_messenger.Negotiation.Terms.{Terms}
use tos_messenger.Negotiation.Mandate.{Mandate}
use tos_messenger.Negotiation.Budget.{Budget}
use tos_messenger.Negotiation.Quote.{QuoteResolver}
use tos_messenger.Negotiation.State.{Negotiation, Snapshot, Env, approval_stands}
use tos_messenger.Negotiation.Machine.{finalize}
use tos_messenger.Negotiation.Creation.{new}
use tos_messenger.Negotiation.Calls.{Call, run}
use tos_messenger.Negotiation.Finality.{finalize-Finalized}
use tos_messenger.Negotiation.WellFormed.{WellFormed, asks}
use tos_messenger.Negotiation.Reachable.{run-WellFormed, new-WellFormed}

module _ ⦃h : Hash⦄ where
  -- A negotiation that `New` made stays well formed through any sequence of calls, whatever the
  -- store, the ledger and the chain answer: the owner is asked exactly when the agreed price is above
  -- the approval point, an agreement has terms, a finalized negotiation has a quote, and the
  -- counteroffers are within the mandate.
  pub run-new-WellFormed :
      (id conversation counterparty : Bytes) (mandate : Mandate) (network : NetworkDomain)
      (has_budget : Bool) (store : Option (Snapshot → Bool)) (start : Time) (n : Negotiation)
      (b : Budget) (r : List (Env × Call))
      → new id conversation counterparty mandate network has_budget store start ≡ ok n
      → WellFormed (run r (record { negotiation = n; budget = b })).negotiation
  run-new-WellFormed id conversation counterparty mandate network has_budget store start n b r k =
      run-WellFormed r _
        (new-WellFormed id conversation counterparty mandate network has_budget store start n k)

  -- Whatever calls led from `New` to a `Finalize` that succeeds: if the agreed price is above the
  -- mandate's approval point, the owner's approval of these terms stands.
  pub finalize-run-new :
      (id conversation counterparty : Bytes) (mandate : Mandate) (network : NetworkDomain)
      (has_budget : Bool) (store : Option (Snapshot → Bool)) (start : Time) (n : Negotiation)
      (b : Budget) (r : List (Env × Call)) (env : Env) (resolver : QuoteResolver)
      (commitment : Bytes) (now : Time) (t : Terms)
      → new id conversation counterparty mandate network has_budget store start ≡ ok n
      → let w = run r (record { negotiation = n; budget = b }) in
        (finalize env (some resolver) commitment now w).1 ≡ ok tt
        → w.negotiation.agreed ≡ some t
        → amount w.negotiation.mandate.approval_above < amount t.price
        → approval_stands w.negotiation ≡ ok tt
  finalize-run-new id conversation counterparty mandate network has_budget store start n b r env
        resolver commitment now t k done agreed above =
      let w = run r (record { negotiation = n; budget = b }) in
      let wf =
        run-new-WellFormed id conversation counterparty mandate network has_budget store start n b r
          k in
      let needs : w.negotiation.needs_approval ≡ true =
        wf.asks_owner ∙ ap (asks w.negotiation.mandate) agreed ∙ lt→ltb above in
      rw needs at (finalize-Finalized env resolver commitment now w done).approved
    where
      lt→ltb : {x y : ℕ} → x < y → ltb x y ≡ true
      lt→ltb l = ground arith
