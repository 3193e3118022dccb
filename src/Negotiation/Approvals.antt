-- ===== src/Negotiation/Approvals.antt =====
-- What an owner's approval is for, and what begins a canonicalisation.
use tos_messenger.Base.{
  ℕ, ◌≡◌, ◌⊎◌, ◌==◌, refl, sym, ap, ◌∙◌, true, false, Bool, Option, some, none, arith, Bytes,
  eq_bytes, eq_bytes→eq, Result, ok, >>=-eq-ok, require, refuse_if, Time, unix_seconds,
  if◌then◌else◌,
}
use tos_messenger.Canon.Encode.{Hash}
use tos_messenger.Negotiation.Errors.{
  NegotiationError, no_approval, nothing_agreed, terms_changed, reopened, mandate_changed,
}
use tos_messenger.Negotiation.Binding.{Fits, TermsCollide, terms_digest_binds}
use tos_messenger.Negotiation.Terms.{Terms, terms_digest}
use tos_messenger.Negotiation.Mandate.{live, mandate_digest, seconds_of, is_commit}
use tos_messenger.Negotiation.State.{
  canonicalization_pending, Negotiation, Approval, Env, World, given, is_agreed, owner_approval,
  approval_stands, begin_checks,
}
use tos_messenger.Negotiation.Machine.{begin_canonicalization}
use tos_messenger.Negotiation.Finality.{step-ok, persist-ok}

require-ok : (b : Bool) (e : NegotiationError) {u : Unit {0}} → require b e ≡ ok u → b ≡ true
require-ok true e h = refl
require-ok false e h = cc

given-ok :
    {A : Type 0} (o : Option A) (e : NegotiationError) {a : A} → given o e ≡ ok a → o ≡ some a
given-ok none e h = cc
given-ok (some a) e h = ground arith

module _ ⦃h : Hash⦄ where
  -- What an approval that stands is for: the agreed terms, the generation and the mandate.
  pub record Stands (n : Negotiation) : Type 0 where
    pub approval : Approval
    pub terms : Terms
    pub given_approval : n.approval ≡ some approval
    pub agreed_terms : n.agreed ≡ some terms
    pub of_terms : terms_digest terms ≡ ok approval.terms_digest
    pub of_generation : approval.generation ≡ n.generation
    pub of_mandate : mandate_digest n.mandate ≡ ok approval.mandate_digest

  pub approval_stands-Stands : (n : Negotiation) → approval_stands n ≡ ok tt → Stands n
  unfolding approval_stands
  approval_stands-Stands n k =
      let (a, e1, k1) = >>=-eq-ok (given n.approval no_approval) _ k in
      let (t, e2, k2) = >>=-eq-ok (given n.agreed nothing_agreed) _ k1 in
      let (d, e3, k3) = >>=-eq-ok (terms_digest t) _ k2 in
      let (_, e4, k4) = >>=-eq-ok (require (eq_bytes a.terms_digest d) terms_changed) _ k3 in
      let (_, e5, k5) = >>=-eq-ok (require (a.generation == n.generation) reopened) _ k4 in
      let (m, e6, k6) = >>=-eq-ok (mandate_digest n.mandate) _ k5 in
      record {
        approval = a;
        terms = t;
        given_approval = given-ok n.approval no_approval e1;
        agreed_terms = given-ok n.agreed nothing_agreed e2;
        of_terms = e3 ∙ ap ok (sym (eq_bytes→eq _ _ (require-ok _ terms_changed e4)));
        of_generation = same_number a.generation n.generation (require-ok _ reopened e5);
        of_mandate = e6 ∙ ap ok (sym (eq_bytes→eq _ _ (require-ok _ mandate_changed k6)));
      }
    where
      same_number : (a b : ℕ) → (a == b) ≡ true → a ≡ b
      same_number a b e = ground arith

  -- An approval that the owner gives names the digest of the terms that were agreed then, which is
  -- the digest that the owner was shown, and the generation and the mandate of that moment.
  pub owner_approval-ok :
      (n : Negotiation) (shown : Bytes) (now : Time) (a : Approval)
      → owner_approval n shown now ≡ ok a
      → (t : Terms) × (n.agreed ≡ some t)
        × (terms_digest t ≡ ok a.terms_digest)
        × (shown ≡ a.terms_digest)
        × (a.generation ≡ n.generation)
        × (mandate_digest n.mandate ≡ ok a.mandate_digest)
  unfolding owner_approval
  owner_approval-ok n shown now a k =
      let (_, e1, k1) = >>=-eq-ok (require (is_agreed n.state) _) _ k in
      let (_, e2, k2) = >>=-eq-ok (live n.mandate now) _ k1 in
      let (_, e3, k3) = >>=-eq-ok (require n.needs_approval _) _ k2 in
      let (t, e4, k4) = >>=-eq-ok (given n.agreed nothing_agreed) _ k3 in
      let (d, e5, k5) = >>=-eq-ok (terms_digest t) _ k4 in
      let (_, e6, k6) = >>=-eq-ok (require (eq_bytes shown d) _) _ k5 in
      let (m, e7, k7) = >>=-eq-ok (mandate_digest n.mandate) _ k6 in
      let (s, e8, k8) = >>=-eq-ok (seconds_of (unix_seconds now)) _ k7 in
      let same = made _ a k8 in
      (
        t,
        given-ok n.agreed nothing_agreed e4,
        e5 ∙ ap (λ (x : Approval). ok x.terms_digest) same,
        eq_bytes→eq shown d (require-ok _ _ e6) ∙ ap (λ (x : Approval). x.terms_digest) same,
        sym (ap (λ (x : Approval). x.generation) same),
        e7 ∙ ap (λ (x : Approval). ok x.mandate_digest) same,
      )
    where
      made :
          (x a : Approval) → (let r : Result NegotiationError Approval = ok x in r) ≡ ok a → x ≡ a
      made x a e = ground arith

  -- When an approval stands that the owner gave, perhaps much earlier: the agreed terms are those
  -- that the owner approved, or else the canonical forms of these two terms are different and have
  -- one SHA-256; the generation is that of the approval; and the mandate has the digest of the
  -- mandate under which it was given. The capability classes are shorter than 4 GiB, and the expiries
  -- fit 64 bits.
  pub approval-binds :
      (n n' : Negotiation) (shown : Bytes) (now : Time) (a : Approval) (t u : Terms)
      → Fits t
      → Fits u
      → owner_approval n shown now ≡ ok a
      → n.agreed ≡ some t
      → n'.approval ≡ some a
      → n'.agreed ≡ some u
      → approval_stands n' ≡ ok tt
      → ((t ≡ u) ⊎ TermsCollide t u)
        × (n'.generation ≡ n.generation)
        × (mandate_digest n'.mandate ≡ mandate_digest n.mandate)
  approval-binds n n' shown now a t u ft fu approved et ea eu stands =
      let (t', et', dt, ds, g, m) = owner_approval-ok n shown now a approved in
      let s = approval_stands-Stands n' stands in
      let same_approval : s.approval ≡ a = some-injective (sym s.given_approval ∙ ea) in
      let same_t : t' ≡ t = some-injective (sym et' ∙ et) in
      let same_u : s.terms ≡ u = some-injective (sym s.agreed_terms ∙ eu) in
      (
        terms_digest_binds t u a.terms_digest ft fu (ap terms_digest (sym same_t) ∙ dt) (
            ap terms_digest (sym same_u)
            ∙ s.of_terms
            ∙ ap (λ (x : Approval). ok x.terms_digest) same_approval),
        sym s.of_generation ∙ ap (λ (x : Approval). x.generation) same_approval ∙ g,
        s.of_mandate ∙ ap (λ (x : Approval). ok x.mandate_digest) same_approval ∙ sym m,
      )
    where
      some-injective : {A : Type 0} {x y : A} → some x ≡ some y → x ≡ y
      some-injective e = ground arith

  -- What `BeginCanonicalization` tested.
  pub record Ready (n : Negotiation) (now : Time) : Type 0 where
    pub was_agreed : is_agreed n.state ≡ true
    pub may_commit : is_commit n.mandate.authority ≡ true
    pub budgeted : n.has_budget ≡ true
    pub in_force : live n.mandate now ≡ ok tt
    pub approved : (if n.needs_approval then approval_stands n else ok tt) ≡ ok tt

  pub begin_checks-Ready : (n : Negotiation) (now : Time) → begin_checks n now ≡ ok tt → Ready n now
  unfolding begin_checks
  begin_checks-Ready n now k =
      let (_, e1, k1) = >>=-eq-ok (refuse_if n.poisoned _) _ k in
      let (_, e2, k2) = >>=-eq-ok (require (is_agreed n.state) _) _ k1 in
      let (_, e3, k3) = >>=-eq-ok (require (is_commit n.mandate.authority) _) _ k2 in
      let (_, e4, k4) = >>=-eq-ok (require n.has_budget _) _ k3 in
      let (_, e5, k5) = >>=-eq-ok (live n.mandate now) _ k4 in
      record {
        was_agreed = require-ok _ _ e2;
        may_commit = require-ok _ _ e3;
        budgeted = require-ok _ _ e4;
        in_force = e5;
        approved = k5;
      }

  -- `BeginCanonicalization` succeeds only from an agreement under a mandate in force that may commit,
  -- with a budget, and, where the owner has to decide, while the decision stands; it changes the
  -- state and nothing else.
  pub begin_canonicalization-Ready :
      (env : Env) (now : Time) (w : World)
      → (begin_canonicalization env now w).1 ≡ ok tt
      → Ready w.negotiation now
        × ((begin_canonicalization env now w).0
            ≡ record w { negotiation = record w.negotiation { state = canonicalization_pending } })
  unfolding begin_canonicalization
  begin_canonicalization-Ready env now w k =
      let n = w.negotiation in
      let (_, e1, q1, k1) = step-ok (w, begin_checks n now) _ k in
      let w' = record w { negotiation = record n { state = canonicalization_pending } } in
      (begin_checks-Ready n now e1, ap (λ c. c.0) q1 ∙ persist-ok env w' k1)
