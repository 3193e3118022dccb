-- ===== src/Negotiation/Finality.antt =====
-- What a finalized negotiation rests on.
use tos_messenger.Base.{
  subst, ◌≡◌, ◌≢◌, refl, sym, ap, ◌∙◌, Bool, true, false, Option, none, some, Bytes, eq_bytes→eq,
  Result, ok, err, arith, Time, if◌then◌else◌, and-eq-true, >>=-eq-ok, require,
}
use tos_messenger.Canon.Encode.{Hash}
use tos_messenger.Negotiation.Errors.{NegotiationError, quote_mismatch}
use tos_messenger.Negotiation.Budget.{Budget, commit_hold}
use tos_messenger.Negotiation.Money.{NetworkDomain}
use tos_messenger.Negotiation.Terms.{Terms, equal_terms}
use tos_messenger.Negotiation.Exact.{equal_money→eq}
use tos_messenger.Negotiation.Mandate.{is_commit, live, permits_commit}
use tos_messenger.Negotiation.Quote.{
  VerifiedAcceptedQuote, QuoteResolver, validate_quote, same_domain, match_accepted_quote,
  match_found, quote_input, resolve_matching_accepted_quote,
}
use tos_messenger.Negotiation.State.{
  snapshot, finalize_gate, finalize_terms, finalize_terms, finalize_gate, Negotiation, Env, World,
  approval_stands, is_canonicalising, finalized,
}
use tos_messenger.Negotiation.Exec.{Exec, lift, on_budget, when, continue}
use tos_messenger.Negotiation.Machine.{
  finalize_quote, saved, finalize_quote, finalize, settle_unless_live, matched,
  permitted_or_rejected, persist,
}

-- `Terms.Equal` holds of equal terms only.
pub equal_terms→eq : (t u : Terms) → equal_terms t u ≡ true → t ≡ u
unfolding equal_terms
equal_terms→eq t u h = ground (
  arith,
  eq_bytes→eq t.capability_id u.capability_id,
  eq_bytes→eq t.capability_version u.capability_version,
  eq_bytes→eq t.capability_class u.capability_class,
  eq_bytes→eq t.provider_agent_id u.provider_agent_id,
  eq_bytes→eq t.manifest_digest u.manifest_digest,
  eq_bytes→eq t.transport_binding_digest u.transport_binding_digest,
  equal_money→eq t.price u.price,
  eq_bytes→eq t.escrow_terms_digest u.escrow_terms_digest,
  eq_bytes→eq t.dispute_policy_digest u.dispute_policy_digest,
)

-- A resolved quote is the one that the chain holds under the commitment, valid, from the network,
-- and says exactly the expected terms.
pub record Resolved (resolver : QuoteResolver) (commitment : Bytes) (expected : Terms)
    (network : NetworkDomain) (q : VerifiedAcceptedQuote) : Type 0 where
  pub read : resolver commitment ≡ ok (some q)
  pub valid : validate_quote q ≡ ok tt
  pub names : q.commitment ≡ commitment
  pub says : q.terms ≡ expected
  pub from_network : same_domain network q.network ≡ true

match_accepted_quote-ok :
    (x : VerifiedAcceptedQuote) (commitment : Bytes) (expected : Terms) (network : NetworkDomain)
    (q : VerifiedAcceptedQuote)
    → match_accepted_quote x commitment expected network ≡ ok q
    → (x ≡ q)
      × (validate_quote x ≡ ok tt)
      × (x.commitment ≡ commitment)
      × (x.terms ≡ expected)
      × (same_domain network x.network ≡ true)
unfolding match_accepted_quote
match_accepted_quote-ok x commitment expected network q h =
    let (u, e1, h1) = >>=-eq-ok (quote_input commitment expected network) _ h in
    let (v, e2, h2) = >>=-eq-ok (validate_quote x) _ h1 in
    let (c, e3, h3) = >>=-eq-ok (require _ quote_mismatch) _ h2 in
    let (both, from_network) = and-eq-true _ _ (required _ quote_mismatch e3) in
    let (names, says) = and-eq-true _ _ both in
    (
      ok-injective h3,
      e2,
      eq_bytes→eq x.commitment commitment names,
      sym (equal_terms→eq expected x.terms says),
      from_network,
    )
  where
    ok-injective :
        {a b : VerifiedAcceptedQuote}
        → (let r : Result NegotiationError VerifiedAcceptedQuote = ok a in r) ≡ ok b
        → a ≡ b
    ok-injective e = ground arith

    required : (b : Bool) (e : NegotiationError) {c : Unit {0}} → require b e ≡ ok c → b ≡ true
    required true e p = refl
    required false e p = cc

match_found-Resolved :
    (resolver : QuoteResolver) (commitment : Bytes) (expected : Terms) (network : NetworkDomain)
    (q : VerifiedAcceptedQuote) (found : Option VerifiedAcceptedQuote)
    → resolver commitment ≡ ok found
    → match_found found commitment expected network ≡ ok q
    → Resolved resolver commitment expected network q
unfolding match_found
match_found-Resolved resolver commitment expected network q none e h = cc
match_found-Resolved resolver commitment expected network q (some x) e h =
    let (same, valid, names, says, from_network) =
      match_accepted_quote-ok x commitment expected network q h in
    subst (Resolved resolver commitment expected network) same
      (record { read = e; valid = valid; names = names; says = says; from_network = from_network })

pub resolve-Resolved :
    (resolver : QuoteResolver) (commitment : Bytes) (expected : Terms) (network : NetworkDomain)
    (q : VerifiedAcceptedQuote)
    → resolve_matching_accepted_quote resolver commitment expected network ≡ ok q
    → Resolved resolver commitment expected network q
unfolding resolve_matching_accepted_quote
resolve-Resolved resolver commitment expected network q h =
    let (u, e1, h1) = >>=-eq-ok (quote_input commitment expected network) _ h in
    let (found, e2, h2) = >>=-eq-ok (resolver commitment) _ h1 in
    match_found-Resolved resolver commitment expected network q found e2 h2

-- Inversion of a successful step of an action.
pub step-ok :
    {A B : Type 0} (p : World × Result NegotiationError A) (f : A → Exec B) {b : B}
    → (continue p f).1 ≡ ok b
    → (a : A) × (p.1 ≡ ok a) × (continue p f ≡ f a p.0) × ((f a p.0).1 ≡ ok b)
step-ok (w, ok a) f h = (a, refl, refl, h)
step-ok (w, err e) f h = cc

fails_after :
    {A B : Type 0} (p : World × Result NegotiationError A) (e : NegotiationError) (b : B)
    → (continue {B = B} p (λ _. lift (err e))).1 ≢ ok b
fails_after (w, ok a) e b h = cc
fails_after (w, err x) e b h = cc

module _ ⦃h : Hash⦄ (env : Env) (w : World) where
  settle_unless_live-ok :
      (r : Result NegotiationError (Unit {0})) {u : Unit {0}}
      → (settle_unless_live env r w).1 ≡ ok u
      → (r ≡ ok tt) × ((settle_unless_live env r w).0 ≡ w)
  unfolding settle_unless_live
  settle_unless_live-ok (ok u) k = (refl, refl)
  settle_unless_live-ok (err e) k = absurd (fails_after _ e _ k)

  permitted_or_rejected-ok :
      (r : Result NegotiationError Bool) {u : Unit {0}}
      → (permitted_or_rejected env r w).1 ≡ ok u
      → (b : Bool) × (r ≡ ok b) × ((permitted_or_rejected env r w).0 ≡ w)
  unfolding permitted_or_rejected
  permitted_or_rejected-ok (ok b) k = (b, refl, refl)
  permitted_or_rejected-ok (err e) k = absurd (fails_after _ e _ k)

  matched-ok :
      (r : Result NegotiationError VerifiedAcceptedQuote) {q : VerifiedAcceptedQuote}
      → (matched env r w).1 ≡ ok q
      → (r ≡ ok q) × ((matched env r w).0 ≡ w)
  unfolding matched
  matched-ok (ok q) k = (k, refl)
  matched-ok (err quote_mismatch) k = absurd (fails_after _ quote_mismatch _ k)
  matched-ok (err _) k = cc

  when-ok :
      (b : Bool) (r : Result NegotiationError (Unit {0})) {u : Unit {0}}
      → (when b (lift r) w).1 ≡ ok u
      → ((if b then r else ok tt) ≡ ok tt) × ((when b (lift r) w).0 ≡ w)
  when-ok true (ok u) k = (refl, refl)
  when-ok true (err e) k = cc
  when-ok false r k = (refl, refl)

pub finalize_gate-ok :
    (n : Negotiation) (r x : QuoteResolver)
    → finalize_gate n (some r) ≡ ok x
    → (x ≡ r)
      × (is_canonicalising n.state ≡ true)
      × (is_commit n.mandate.authority ≡ true)
      × (n.has_budget ≡ true)
unfolding finalize_gate
finalize_gate-ok n r x h = ground arith

finalize_terms-ok :
    (n : Negotiation) (commitment : Bytes) (t : Terms)
    → finalize_terms n commitment ≡ ok t
    → n.agreed ≡ some t
unfolding finalize_terms
finalize_terms-ok n commitment t h = ground arith

saved-ok : (b : Bool) (w : World) {u : Unit {0}} → (saved b w).1 ≡ ok u → (saved b w).0 ≡ w
unfolding saved
saved-ok true w h = refl
saved-ok false w h = cc

-- A write that succeeds changes nothing in memory.
pub persist-ok :
    ⦃h : Hash⦄ (env : Env) (w : World) {u : Unit {0}}
    → (persist env w).1 ≡ ok u
    → (persist env w).0 ≡ w
unfolding persist
persist-ok env w k =
    let (s, e, q, k1) = step-ok (w, snapshot w.negotiation) _ k in
    ap (λ c. c.0) q ∙ saved-ok (env.save s) w k1

when-on_budget :
    (b : Bool) (f : Budget → Budget × Result NegotiationError (Unit {0})) (w : World)
    → (when b (on_budget f) w).0.negotiation ≡ w.negotiation
when-on_budget true f w = refl
when-on_budget false f w = refl

-- What a successful `Finalize` found and left.
pub record Finalized ⦃h : Hash⦄ (resolver : QuoteResolver) (commitment : Bytes) (now : Time)
    (n n' : Negotiation) : Type 0 where
  pub terms : Terms
  pub quote : VerifiedAcceptedQuote
  pub was_pending : is_canonicalising n.state ≡ true
  pub was_agreed : n.agreed ≡ some terms
  pub resolved : Resolved resolver commitment terms n.network quote
  pub may_commit : is_commit n.mandate.authority ≡ true
  pub permitted : (b : Bool) × (permits_commit n.mandate quote.terms now ≡ ok b)
  pub approved : (if n.needs_approval then approval_stands n else ok tt) ≡ ok tt
  pub left : n' ≡ record n { commitment = commitment; quote = some quote; state = finalized }

module _ ⦃h : Hash⦄ (env : Env) where
  -- `Finalize` succeeds only for a quote that the chain holds under the commitment, from the bound
  -- network, that says exactly the agreed terms; only under a mandate that may commit and still
  -- permits them; and, where the owner had to decide, only while the decision stands. It changes the
  -- commitment, the quote and the state, and nothing else of the negotiation.
  pub finalize-Finalized :
      (resolver : QuoteResolver) (commitment : Bytes) (now : Time) (w : World)
      → (finalize env (some resolver) commitment now w).1 ≡ ok tt
      → Finalized resolver commitment now w.negotiation
          (finalize env (some resolver) commitment now w).0.negotiation
  unfolding finalize finalize_quote finalize_gate finalize_terms
  finalize-Finalized resolver commitment now w k =
      let n = w.negotiation in
      let (resolve, e1, q1, k1) = step-ok (w, finalize_gate n (some resolver)) _ k in
      let (_, e2, q2, k2) = step-ok (settle_unless_live env (live n.mandate now) w) _ k1 in
      let w2 = (settle_unless_live env (live n.mandate now) w).0 in
      let (t, e3, q3, k3) = step-ok (w2, finalize_terms n commitment) _ k2 in
      let answer = resolve_matching_accepted_quote resolve commitment t n.network in
      let (q, e4, q4, k4) = step-ok (matched env answer w2) _ k3 in
      let w4 = (matched env answer w2).0 in
      let (_, e5, q5, k5) = step-ok (when n.needs_approval (lift (approval_stands n)) w4) _ k4 in
      let w5 = (when n.needs_approval (lift (approval_stands n)) w4).0 in
      let judged = permits_commit n.mandate q.terms now in
      let (_, e6, q6, k6) = step-ok (permitted_or_rejected env judged w5) _ k5 in
      let w6 = (permitted_or_rejected env judged w5).0 in
      let n' = record n { commitment = commitment; quote = some q; state = finalized } in
      let w7 = record w6 { negotiation = n' } in
      let (_, e7, q7, k7) = step-ok (persist env w7) _ k6 in
      let (same, pending, committing, budgeted) = finalize_gate-ok n resolver resolve e1 in
      let resolved =
        resolve-Resolved resolve commitment t n.network q (matched-ok env w2 answer e4).0 in
      let (b, permitted, _) = permitted_or_rejected-ok env w5 judged e6 in
      record {
        terms = t;
        quote = q;
        was_pending = pending;
        was_agreed = finalize_terms-ok n commitment t e3;
        resolved = subst (λ r. Resolved r commitment t n.network q) same resolved;
        may_commit = committing;
        permitted = (b, permitted);
        approved = (when-ok env w4 n.needs_approval (approval_stands n) e5).0;
        left =
            ap (λ c. c.0.negotiation) (q1 ∙ q2 ∙ q3 ∙ q4 ∙ q5 ∙ q6 ∙ q7)
            ∙ when-on_budget n.has_budget (commit_hold env.ledger n.id) (persist env w7).0
            ∙ ap (λ (x : World). x.negotiation) (persist-ok env w7 e7);
      }
