-- ===== src/Negotiation/Binding.antt =====
-- What a digest of terms binds.
use tos_messenger.Base.{
  ◌<◌, ◌^◌, ◌≡◌, ◌⊎◌, inl, inr, sym, ap, ◌∙◌, true, ◌++◌, arith, Bytes, length, Result, ok, err,
  length_of_is_prefixed_hash, >>=-eq-ok, map_err,
}
use tos_messenger.Canon.Encode.{Hash, digest, sha256_prefix}
use tos_messenger.Canon.Collision.{Collides, digest_binds, append_cancel}
use tos_messenger.Canon.Leads.{uint64-injective, text_lead}
use tos_messenger.Negotiation.Errors.{NegotiationError, canonical_failed}
use tos_messenger.Negotiation.Money.{validate_money, canonical_money, code_hash_prefix}
use tos_messenger.Negotiation.MoneyLeads.{money_lead}
use tos_messenger.Negotiation.Terms.{
  Terms, validate_terms, terms_bytes, terms_fields, terms_digest, domain_negotiation_terms,
  is_set_digest, is_commitment_digest, agent_prefix, capability_prefix,
}

-- What a Go value of the type always is: a string shorter than 4 GiB and a uint64. The other strings
-- are short by their patterns.
abbrev pub Fits : Terms → Type 0
Fits t = (length t.capability_class < 2 ^ 32) × (t.not_after_unix < 2 ^ 64)

record Lengths (t : Terms) : Type 0 where
  capability : length t.capability_id < 2 ^ 32
  version : length t.capability_version < 2 ^ 32
  provider : length t.provider_agent_id < 2 ^ 32
  manifest : length t.manifest_digest < 2 ^ 32
  transport : length t.transport_binding_digest < 2 ^ 32
  escrow : length t.escrow_terms_digest < 2 ^ 32
  dispute : length t.dispute_policy_digest < 2 ^ 32
  price : validate_money t.price ≡ ok tt

length_of_is_set_digest : (s : Bytes) → is_set_digest s ≡ true → length s < 2 ^ 32
unfolding is_set_digest is_commitment_digest
length_of_is_set_digest s h = ground (
  arith,
  length_of_is_prefixed_hash sha256_prefix s,
  length_of_is_prefixed_hash code_hash_prefix s,
)

validate_terms-Lengths : (t : Terms) → validate_terms t ≡ ok tt → Lengths t
unfolding validate_terms
validate_terms-Lengths t h = record {
  capability = ground (arith, length_of_is_prefixed_hash capability_prefix t.capability_id);
  version = ground arith;
  provider = ground (arith, length_of_is_prefixed_hash agent_prefix t.provider_agent_id);
  manifest = ground (arith, length_of_is_set_digest t.manifest_digest);
  transport = ground (arith, length_of_is_set_digest t.transport_binding_digest);
  escrow = ground (arith, length_of_is_set_digest t.escrow_terms_digest);
  dispute = ground (arith, length_of_is_set_digest t.dispute_policy_digest);
  price = ground arith;
}

terms_fields-injective :
    (t u : Terms) (c d : Bytes)
    → Lengths t
    → Lengths u
    → Fits t
    → Fits u
    → canonical_money t.price ≡ ok c
    → canonical_money u.price ≡ ok d
    → terms_fields t c ≡ terms_fields u d
    → t ≡ u
unfolding terms_fields
terms_fields-injective t u c d lt lu ft fu pc pd e =
    let (capability, e1) = text_lead _ _ _ _ lt.capability lu.capability e in
    let (version, e2) = text_lead _ _ _ _ lt.version lu.version e1 in
    let (class, e3) = text_lead _ _ _ _ ft.0 fu.0 e2 in
    let (provider, e4) = text_lead _ _ _ _ lt.provider lu.provider e3 in
    let (manifest, e5) = text_lead _ _ _ _ lt.manifest lu.manifest e4 in
    let (transport, e6) = text_lead _ _ _ _ lt.transport lu.transport e5 in
    let (price, e7) = money_lead t.price u.price c d _ _ lt.price lu.price pc pd e6 in
    let (escrow, e8) = text_lead _ _ _ _ lt.escrow lu.escrow e7 in
    let (dispute, e9) = text_lead _ _ _ _ lt.dispute lu.dispute e8 in
    let until = uint64-injective _ _ ft.1 fu.1 e9 in
    λ i. record {
      capability_id = capability i;
      capability_version = version i;
      capability_class = class i;
      provider_agent_id = provider i;
      manifest_digest = manifest i;
      transport_binding_digest = transport i;
      price = price i;
      escrow_terms_digest = escrow i;
      dispute_policy_digest = dispute i;
      not_after_unix = until i;
    }

terms_bytes_parts :
    (t : Terms) (p : Bytes)
    → terms_bytes t ≡ ok p
    → (validate_terms t ≡ ok tt)
      × ((c : Bytes) × (canonical_money t.price ≡ ok c)
          × (p ≡ domain_negotiation_terms ++ terms_fields t c))
unfolding terms_bytes
terms_bytes_parts t p h =
    let (u, valid, k) = >>=-eq-ok (validate_terms t) _ h in
    let (c, e, l) = >>=-eq-ok (map_err (λ _. canonical_failed) (canonical_money t.price)) _ k in
    (valid, (c, kept (canonical_money t.price) c e, ok-injective l))
  where
    kept :
        {A : Type 0} (r : Result A Bytes) (c : Bytes)
        → map_err (λ _. canonical_failed) r ≡ ok c
        → r ≡ ok c
    kept (ok b) c e = ground arith
    kept (err f) c e = cc

    ok-injective :
        {a b : Bytes} → (let r : Result NegotiationError Bytes = ok a in r) ≡ ok b → b ≡ a
    ok-injective e = ground arith

-- Valid terms with one canonical form are the same terms.
pub terms_bytes-injective :
    (t u : Terms) (p : Bytes)
    → Fits t
    → Fits u
    → terms_bytes t ≡ ok p
    → terms_bytes u ≡ ok p
    → t ≡ u
terms_bytes-injective t u p ft fu ht hu =
    let (vt, (c, pc, et)) = terms_bytes_parts t p ht in
    let (vu, (d, pd, eu)) = terms_bytes_parts u p hu in
    terms_fields-injective t u c d (validate_terms-Lengths t vt) (validate_terms-Lengths u vu) ft fu
      pc pd (append_cancel domain_negotiation_terms _ _ (sym et ∙ eu))

module _ ⦃h : Hash⦄ where
  -- The canonical forms of these two terms are different and have one SHA-256.
  abbrev pub TermsCollide : Terms → Terms → Type 0
  TermsCollide t u =
      (p : Bytes) × (q : Bytes) × (terms_bytes t ≡ ok p) × (terms_bytes u ≡ ok q) × Collides p q

  -- Two terms with one digest are the same in every field, or else their own canonical forms are two
  -- different inputs with one SHA-256. The capability classes are shorter than 4 GiB, and the
  -- expiries fit 64 bits.
  pub terms_digest_binds :
      (t u : Terms) (d : Bytes)
      → Fits t
      → Fits u
      → terms_digest t ≡ ok d
      → terms_digest u ≡ ok d
      → (t ≡ u) ⊎ TermsCollide t u
  unfolding terms_digest
  terms_digest_binds t u d ft fu ht hu =
      let (p, ep, dp) = >>=-eq-ok (terms_bytes t) _ ht in
      let (q, eq, dq) = >>=-eq-ok (terms_bytes u) _ hu in
      elim (digest_binds p q (digests p q dp dq)) [
        | inl same ↦ inl (terms_bytes-injective t u p ft fu ep (eq ∙ ap ok (sym same)))
        | inr collision ↦ inr (p, q, ep, eq, collision)
      ]
    where
      digests :
          (p q : Bytes)
          → (let r : Result NegotiationError Bytes = ok (digest p) in r) ≡ ok d
          → (let r : Result NegotiationError Bytes = ok (digest q) in r) ≡ ok d
          → digest p ≡ digest q
      digests p q a b = ground arith
