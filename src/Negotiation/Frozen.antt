-- ===== src/Negotiation/Frozen.antt =====
-- What an ended negotiation and agreed terms refuse.
use tos_messenger.Base.{
  inr, Bool-cases, inl, ◌≡◌, refl, ap, ◌∙◌, ◌⊎◌, true, false, Option, List, [], ◌∷◌, Bytes, err,
  arith, Time,
}
use tos_messenger.Canon.Encode.{Hash}
use tos_messenger.Negotiation.Errors.{
  already_agreed, being_canonicalised, already_ended, poisoned, NegotiationError,
}
use tos_messenger.Negotiation.State.{
  finalize_gate, begin_checks, State, Negotiation, Env, World, is_settled, is_agreed,
  is_canonicalising, open_at, owner_approval,
}
use tos_messenger.Negotiation.Terms.{Terms}
use tos_messenger.Negotiation.Quote.{QuoteResolver}
use tos_messenger.Negotiation.Machine.{
  receive_proposal, counter, accept_intent, reopen, reject_intent, withdraw, approve_by_owner,
  deny_by_owner, begin_canonicalization, expire, finalize,
}
use tos_messenger.Negotiation.Calls.{
  Call, receives, counters, accepts, begins, expires, reopens, rejects, withdraws, denies, approves,
  finalizes, call, run,
}

open_at-is_settled :
    (n : Negotiation) (now : Time)
    → is_settled n.state ≡ true
    → (e : NegotiationError) × (open_at n now ≡ err e)
unfolding open_at
open_at-is_settled n now s = elim (Bool-cases n.poisoned) [
  | inl p ↦ (poisoned, rw p refl)
  | inr p ↦ (already_ended, rw (p, s) refl)
]

-- Bargaining is closed on agreed terms and on terms that are being canonicalised.
open_at_frozen :
    (n : Negotiation) (now : Time)
    → (is_agreed n.state ≡ true) ⊎ (is_canonicalising n.state ≡ true)
    → (e : NegotiationError) × (open_at n now ≡ err e)
unfolding open_at
open_at_frozen n now s = elim (Bool-cases n.poisoned) [
  | inl p ↦ (poisoned, rw p refl)
  | inr p ↦ elim (Bool-cases (is_settled n.state)) [
    | inl q ↦ (already_ended, rw (p, q) refl)
    | inr q ↦ elim (Bool-cases (is_canonicalising n.state)) [
      | inl r ↦ (being_canonicalised, rw (p, q, r) refl)
      | inr r ↦ (already_agreed, rw (p, q, r, agreed s r) refl)
    ]
  ]
]
  where
    agreed :
        (is_agreed n.state ≡ true) ⊎ (is_canonicalising n.state ≡ true)
        → is_canonicalising n.state ≡ false
        → is_agreed n.state ≡ true
    agreed (inl a) r = a
    agreed (inr b) r = cc

not_agreed_of_settled :
    (s : State) → is_settled s ≡ true → (is_agreed s ≡ false) × (is_canonicalising s ≡ false)
not_agreed_of_settled s h = ground arith

module _ ⦃h : Hash⦄ (env : Env) (w : World) where
  receive_proposal_closed :
      (t : Terms) (now : Time) (e : NegotiationError)
      → open_at w.negotiation now ≡ err e
      → receive_proposal env t now w ≡ (w, err e)
  unfolding receive_proposal
  receive_proposal_closed t now e p = simp p

  counter_closed :
      (t : Terms) (now : Time) (e : NegotiationError)
      → open_at w.negotiation now ≡ err e
      → counter env t now w ≡ (w, err e)
  unfolding counter
  counter_closed t now e p = simp p

  accept_intent_closed :
      (now : Time) (e : NegotiationError)
      → open_at w.negotiation now ≡ err e
      → (x : NegotiationError) × (accept_intent env now w ≡ (w, err x))
  unfolding accept_intent
  accept_intent_closed now e p = elim (Bool-cases w.negotiation.poisoned) [
    | inl q ↦ (poisoned, simp q)
    | inr q ↦ (e, simp (q, p))
  ]

  begin_canonicalization_closed :
      (now : Time)
      → is_agreed w.negotiation.state ≡ false
      → (begin_canonicalization env now w).0 ≡ w
  unfolding begin_canonicalization begin_checks
  begin_canonicalization_closed now p = elim (Bool-cases w.negotiation.poisoned) [
    | inl q ↦ simp q
    | inr q ↦ simp (q, p)
  ]

  finalize_closed :
      (resolver : Option QuoteResolver) (commitment : Bytes) (now : Time)
      → is_canonicalising w.negotiation.state ≡ false
      → (finalize env resolver commitment now w).0 ≡ w
  unfolding finalize finalize_gate
  finalize_closed resolver commitment now p = elim (Bool-cases w.negotiation.poisoned) [
    | inl q ↦ simp q
    | inr q ↦ simp (q, p)
  ]

module _ ⦃h : Hash⦄ where
  -- A negotiation that has ended stays as it is, and its budget too, whatever is called on it.
  pub call-is_settled :
      (env : Env) (c : Call) (w : World)
      → is_settled w.negotiation.state ≡ true
      → (call env c w).0 ≡ w
  unfolding call expire reopen reject_intent withdraw approve_by_owner deny_by_owner owner_approval
  call-is_settled env (receives t now) w s =
      let (e, p) = open_at-is_settled w.negotiation now s in
      ap (λ c. c.0) (receive_proposal_closed env w t now e p)
  call-is_settled env (counters t now) w s =
      let (e, p) = open_at-is_settled w.negotiation now s in
      ap (λ c. c.0) (counter_closed env w t now e p)
  call-is_settled env (accepts now) w s =
      let (e, p) = open_at-is_settled w.negotiation now s in
      ap (λ c. c.0) (accept_intent_closed env w now e p).1
  call-is_settled env (begins now) w s =
      begin_canonicalization_closed env w now (not_agreed_of_settled w.negotiation.state s).0
  call-is_settled env (expires now) w s = simp s
  call-is_settled env (reopens reason now) w s =
      simp (not_agreed_of_settled w.negotiation.state s).0
  call-is_settled env (rejects reason) w s = simp s
  call-is_settled env (withdraws reason) w s = simp s
  call-is_settled env (denies reason) w s = simp (not_agreed_of_settled w.negotiation.state s).0
  call-is_settled env (approves shown now) w s =
      simp (not_agreed_of_settled w.negotiation.state s).0
  call-is_settled env (finalizes resolver commitment now) w s =
      finalize_closed env w resolver commitment now (not_agreed_of_settled w.negotiation.state s).1

  -- No sequence of calls, in whatever environments, revives a negotiation that has ended.
  pub run-is_settled :
      (r : List (Env × Call)) (w : World) → is_settled w.negotiation.state ≡ true → run r w ≡ w
  unfolding run
  run-is_settled [] w s = refl
  run-is_settled ((env, c) ∷ r) w s =
      let e = call-is_settled env c w s in ap (run r) e ∙ run-is_settled r w s
