-- ===== src/Room/Signed.antt =====
-- What a signature of an authority is about: the signed bytes stand for one thing of one kind.
use tos_messenger.Base.{
  take, drop, ◌+◌, ◌^◌, ◌<◌, ◌≡◌, sym, ap, ◌∙◌, true, false, ◌||◌, not, [], ◌∷◌, ◌++◌, leb, ◌==◌,
  Bytes, Result, ok, refuse_if, ok-injective, refuse_if-ok, >>=-eq-ok, arith, u64, eq_bytes,
}
use tos_messenger.Canon.Encode.{text, valid_digest}
use tos_messenger.Canon.Leads.{text_lead, uint64_lead}
use tos_messenger.Canon.Collision.{append_cancel}
use tos_messenger.Room.Membership.{is_room}
use tos_messenger.Room.Authority.{
  AuthorityError, MembershipAuthorization, AuthorityTransfer, authority_network, is_authority,
  same_authority, is_bad_window, authorization_bytes, authorization_fields, authorization_schema,
  transfer_bytes, transfer_fields, transfer_schema, validate_authorization, validate_transfer,
  domain_room_authority_transfer, domain_room_membership_authorization, invalid,
}
use tos_messenger.Room.Preimages.{
  network_domain_lead, room-short, digest-short, authority_lead, window-injective,
}

-- What a Go value of the type always is: its numbers are uint64 values.
abbrev pub FitsAuthorization : MembershipAuthorization → Type 0
FitsAuthorization v =
    (v.epoch < 2 ^ 64) × (v.issued_at_unix < 2 ^ 64) × (v.expires_at_unix < 2 ^ 64)

abbrev pub FitsTransfer : AuthorityTransfer → Type 0
FitsTransfer v =
    (v.prior_epoch < 2 ^ 64)
    × (v.next_epoch < 2 ^ 64)
    × (v.issued_at_unix < 2 ^ 64)
    × (v.expires_at_unix < 2 ^ 64)

record AuthorizationParts (v : MembershipAuthorization) (p : Bytes) : Type 0 where
  network : Bytes
  encoded : authority_network v.network ≡ ok network
  room : is_room v.room_id ≡ true
  digest : valid_digest v.membership_digest ≡ true
  authority : is_authority v.authority ≡ true
  whole : p ≡ domain_room_membership_authorization ++ authorization_fields v network

authorization_parts :
    (v : MembershipAuthorization) (p : Bytes)
    → authorization_bytes v ≡ ok p
    → AuthorizationParts v p
unfolding authorization_bytes validate_authorization
authorization_parts v p h =
    let (u, e1, k1) = >>=-eq-ok (validate_authorization v false) _ h in
    let (network, e2, k2) = >>=-eq-ok (authority_network v.network) _ k1 in
    let (_, e3, k3) =
      >>=-eq-ok
        (refuse_if
          (not (is_room v.room_id)
            || v.epoch == 0
            || not (valid_digest v.membership_digest)
            || not (is_authority v.authority)
            || is_bad_window v.issued_at_unix v.expires_at_unix)
          invalid)
        _ e1 in
    let fine = refuse_if-ok _ invalid e3 in
    record {
      network = network;
      encoded = e2;
      room = ground arith;
      digest = ground arith;
      authority = ground arith;
      whole = sym (ok-injective k2);
    }

abbrev pub unsigned_authorization : MembershipAuthorization → MembershipAuthorization
unsigned_authorization v = record v { endpoint_signature = [] }

abbrev pub unsigned_transfer : AuthorityTransfer → AuthorityTransfer
unsigned_transfer v = record v { current_endpoint_signature = [] }

pub authorization_bytes-binds :
    (v w : MembershipAuthorization) (p : Bytes)
    → FitsAuthorization v
    → FitsAuthorization w
    → authorization_bytes v ≡ ok p
    → authorization_bytes w ≡ ok p
    → unsigned_authorization v ≡ unsigned_authorization w
unfolding authorization_fields
authorization_bytes-binds v w p fv fw hv hw =
    let a = authorization_parts v p hv in
    let b = authorization_parts w p hw in
    let e0 = append_cancel domain_room_membership_authorization _ _ (sym a.whole ∙ b.whole) in
    let e1 = append_cancel (text authorization_schema) _ _ e0 in
    let (network, e2) = network_domain_lead v.network w.network _ _ _ _ a.encoded b.encoded e1 in
    let (room, e3) =
      text_lead v.room_id w.room_id _ _ (room-short _ a.room) (room-short _ b.room) e2 in
    let (epoch, e4) = uint64_lead v.epoch w.epoch _ _ fv.0 fw.0 e3 in
    let (digest, e5) =
      text_lead v.membership_digest w.membership_digest _ _ (digest-short _ a.digest)
        (digest-short _ b.digest) e4 in
    let (authority, e6) = authority_lead v.authority w.authority _ _ a.authority b.authority e5 in
    let (issued, expires) = window-injective _ _ _ _ fv.1 fw.1 fv.2 fw.2 e6 in
    λ i. record {
      network = network i;
      room_id = room i;
      epoch = epoch i;
      membership_digest = digest i;
      authority = authority i;
      issued_at_unix = issued i;
      expires_at_unix = expires i;
      endpoint_signature = [];
    }

record TransferParts (v : AuthorityTransfer) (p : Bytes) : Type 0 where
  network : Bytes
  encoded : authority_network v.network ≡ ok network
  room : is_room v.room_id ≡ true
  prior : valid_digest v.prior_membership_digest ≡ true
  next : valid_digest v.next_membership_digest ≡ true
  from : is_authority v.from ≡ true
  to : is_authority v.to ≡ true
  whole : p ≡ domain_room_authority_transfer ++ transfer_fields v network

transfer_parts : (v : AuthorityTransfer) (p : Bytes) → transfer_bytes v ≡ ok p → TransferParts v p
unfolding transfer_bytes validate_transfer
transfer_parts v p h =
    let (u, e1, k1) = >>=-eq-ok (validate_transfer v false) _ h in
    let (network, e2, k2) = >>=-eq-ok (authority_network v.network) _ k1 in
    let (_, e3, k3) =
      >>=-eq-ok
        (refuse_if
          (not (is_room v.room_id)
            || v.prior_epoch == 0
            || leb v.next_epoch v.prior_epoch
            || not (v.next_epoch == u64 (v.prior_epoch + 1))
            || not (valid_digest v.prior_membership_digest)
            || not (valid_digest v.next_membership_digest)
            || eq_bytes v.prior_membership_digest v.next_membership_digest
            || not (is_authority v.from)
            || not (is_authority v.to)
            || same_authority v.from v.to
            || is_bad_window v.issued_at_unix v.expires_at_unix)
          invalid)
        _ e1 in
    let fine = refuse_if-ok _ invalid e3 in
    record {
      network = network;
      encoded = e2;
      room = ground arith;
      prior = ground arith;
      next = ground arith;
      from = ground arith;
      to = ground arith;
      whole = sym (ok-injective k2);
    }

pub transfer_bytes-binds :
    (v w : AuthorityTransfer) (p : Bytes)
    → FitsTransfer v
    → FitsTransfer w
    → transfer_bytes v ≡ ok p
    → transfer_bytes w ≡ ok p
    → unsigned_transfer v ≡ unsigned_transfer w
unfolding transfer_fields
transfer_bytes-binds v w p fv fw hv hw =
    let a = transfer_parts v p hv in
    let b = transfer_parts w p hw in
    let e0 = append_cancel domain_room_authority_transfer _ _ (sym a.whole ∙ b.whole) in
    let e1 = append_cancel (text transfer_schema) _ _ e0 in
    let (network, e2) = network_domain_lead v.network w.network _ _ _ _ a.encoded b.encoded e1 in
    let (room, e3) =
      text_lead v.room_id w.room_id _ _ (room-short _ a.room) (room-short _ b.room) e2 in
    let (prior_epoch, e4) = uint64_lead v.prior_epoch w.prior_epoch _ _ fv.0 fw.0 e3 in
    let (next_epoch, e5) = uint64_lead v.next_epoch w.next_epoch _ _ fv.1 fw.1 e4 in
    let (prior, e6) = text_lead _ _ _ _ (digest-short _ a.prior) (digest-short _ b.prior) e5 in
    let (next, e7) = text_lead _ _ _ _ (digest-short _ a.next) (digest-short _ b.next) e6 in
    let (from, e8) = authority_lead v.from w.from _ _ a.from b.from e7 in
    let (to, e9) = authority_lead v.to w.to _ _ a.to b.to e8 in
    let (issued, expires) = window-injective _ _ _ _ fv.2 fw.2 fv.3 fw.3 e9 in
    λ i. record {
      network = network i;
      room_id = room i;
      prior_epoch = prior_epoch i;
      next_epoch = next_epoch i;
      prior_membership_digest = prior i;
      next_membership_digest = next i;
      from = from i;
      to = to i;
      issued_at_unix = issued i;
      expires_at_unix = expires i;
      current_endpoint_signature = [];
    }

pub authorization-ne-transfer :
    (v : MembershipAuthorization) (w : AuthorityTransfer) (p : Bytes)
    → authorization_bytes v ≡ ok p
    → transfer_bytes w ≡ ok p
    → ⊥
authorization-ne-transfer v w p hv hw =
    let e = sym (authorization_parts v p hv).whole ∙ (transfer_parts w p hw).whole in
    different (ap (λ (l : Bytes). take 1 (drop 19 l)) e)
  where
    different : ◌≡◌ {A = Bytes} (109 ∷ []) (97 ∷ []) → ⊥
    different e = ground arith

-- What the authority of a room signs about its membership and about itself.
pub data Signable : Type 0 where
  authorization : MembershipAuthorization → Signable
  transfer : AuthorityTransfer → Signable

abbrev pub signing_bytes : Signable → Result AuthorityError Bytes
signing_bytes (authorization v) = authorization_bytes v
signing_bytes (transfer v) = transfer_bytes v

abbrev pub unsigned : Signable → Signable
unsigned (authorization v) = authorization (unsigned_authorization v)
unsigned (transfer v) = transfer (unsigned_transfer v)

abbrev pub Fits : Signable → Type 0
Fits (authorization v) = FitsAuthorization v
Fits (transfer v) = FitsTransfer v

-- Bytes that are signed stand for one thing: an authorization and a transfer never share them, and
-- two of one kind that share them differ in nothing but the signature. The numbers are uint64 values.
pub signing_bytes_bind :
    (x y : Signable) (p : Bytes)
    → Fits x
    → Fits y
    → signing_bytes x ≡ ok p
    → signing_bytes y ≡ ok p
    → unsigned x ≡ unsigned y
signing_bytes_bind (authorization v) (authorization w) p fv fw hv hw =
    ap authorization (authorization_bytes-binds v w p fv fw hv hw)
signing_bytes_bind (authorization v) (transfer w) p fv fw hv hw =
    absurd (authorization-ne-transfer v w p hv hw)
signing_bytes_bind (transfer v) (authorization w) p fv fw hv hw =
    absurd (authorization-ne-transfer w v p hw hv)
signing_bytes_bind (transfer v) (transfer w) p fv fw hv hw =
    ap transfer (transfer_bytes-binds v w p fv fw hv hw)
