-- ===== src/Room/Preimages.antt =====
-- The fields of what an authority signs, in front of other bytes: each stands for its value alone.
use tos_messenger.Base.{
  ℕ, ◌^◌, ◌<◌, ◌≡◌, refl, sym, ap, ◌∙◌, true, none, some, ◌++◌, Bytes, codes, length, Result, ok,
  err, map_err, >>=-eq-ok, arith, length_of_is_prefixed_hash,
}
use tos_messenger.Canon.Encode.{text, uint64, valid_digest, sha256_prefix}
use tos_messenger.Canon.Leads.{text_lead, uint64_lead, uint64-injective}
use tos_messenger.Negotiation.Money.{NetworkDomain, Network, validate_network, canonical_network}
use tos_messenger.Negotiation.MoneyLeads.{network_lead}
use tos_messenger.Room.Membership.{is_agent, is_room}
use tos_messenger.Room.Authority.{Authority, authority_network, is_authority, bad_network}

map_err-ok {ℓ} :
    {E F : Type 0} {A : Type ℓ} (f : E → F) (r : Result E A) (a : A) → map_err f r ≡ ok a → r ≡ ok a
map_err-ok f (ok b) a h = ground arith
map_err-ok f (err e) a h = cc

network_parts :
    (d : NetworkDomain) (a : Bytes)
    → authority_network d ≡ ok a
    → (n : Network) × (d ≡ some n) × (validate_network n ≡ ok tt) × (canonical_network n ≡ ok a)
unfolding authority_network
network_parts none a h = cc
network_parts (some n) a h =
    let (u, e, k) =
      >>=-eq-ok (map_err {A = Unit {0}} (λ _. bad_network) (validate_network n)) _ h in
    (
      n,
      refl,
      unit u (map_err-ok (λ _. bad_network) (validate_network n) u e),
      map_err-ok (λ _. bad_network) (canonical_network n) a k,
    )
  where
    unit : (u : Unit {0}) → validate_network n ≡ ok u → validate_network n ≡ ok tt
    unit tt e = e

pub network_domain_lead :
    (d d' : NetworkDomain) (a b x y : Bytes)
    → authority_network d ≡ ok a
    → authority_network d' ≡ ok b
    → a ++ x ≡ b ++ y
    → (d ≡ d') × (x ≡ y)
network_domain_lead d d' a b x y ha hb e =
    let (n, dn, vn, cn) = network_parts d a ha in
    let (m, dm, vm, cm) = network_parts d' b hb in
    let (same, rest) = network_lead n m a b x y vn vm cn cm e in (dn ∙ ap some same ∙ sym dm, rest)

-- Each identifier and digest is short by its pattern.
pub room-short : (s : Bytes) → is_room s ≡ true → length s < 2 ^ 32
room-short s h = ground (arith, length_of_is_prefixed_hash (codes "room_") s h)

pub agent-short : (s : Bytes) → is_agent s ≡ true → length s < 2 ^ 32
agent-short s h = ground (arith, length_of_is_prefixed_hash (codes "agent_") s h)

pub digest-short : (s : Bytes) → valid_digest s ≡ true → length s < 2 ^ 32
unfolding valid_digest
digest-short s h = ground (arith, length_of_is_prefixed_hash sha256_prefix s)

pub authority_lead :
    (a b : Authority) (x y : Bytes)
    → is_authority a ≡ true
    → is_authority b ≡ true
    → text a.agent_id ++ (text a.endpoint_id ++ x) ≡ text b.agent_id ++ (text b.endpoint_id ++ y)
    → (a ≡ b) × (x ≡ y)
authority_lead a b x y ha hb e =
    let (agent, e1) =
      text_lead a.agent_id b.agent_id _ _ (agent-short a.agent_id (ground arith))
        (agent-short b.agent_id (ground arith)) e in
    let (endpoint, e2) = text_lead a.endpoint_id b.endpoint_id x y (short a ha) (short b hb) e1 in
    ((λ i. record { agent_id = agent i; endpoint_id = endpoint i }), e2)
  where
    short : (c : Authority) → is_authority c ≡ true → length c.endpoint_id < 2 ^ 32
    short c h = ground (arith, length_of_is_prefixed_hash (codes "mep_") c.endpoint_id)

-- The two times at the end.
pub window-injective :
    (i e i' e' : ℕ)
    → i < 2 ^ 64
    → i' < 2 ^ 64
    → e < 2 ^ 64
    → e' < 2 ^ 64
    → uint64 i ++ uint64 e ≡ uint64 i' ++ uint64 e'
    → (i ≡ i') × (e ≡ e')
window-injective i e i' e' hi hi' he he' h =
    let (issued, rest) = uint64_lead i i' _ _ hi hi' h in
    (issued, uint64-injective e e' he he' rest)
