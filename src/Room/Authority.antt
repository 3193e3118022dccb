-- ===== src/Room/Authority.antt =====
-- pkg/room/authority.go: signed authorizations of memberships, and transfers of the authority.
use tos_messenger.Base.{
  ℕ, ◌+◌, ◌-◌, Bool, true, false, ◌&&◌, ◌||◌, not, Option, none, some, [], ◌∷◌, ◌++◌, ltb, leb,
  ◌==◌, Bytes, codes, length, eq_bytes, is_prefixed_hash, Result, ok, err, require, refuse_if,
  map_err, ◌>>=◌, ◌>>◌, Time, unix_seconds, u64,
}
use tos_messenger.Canon.Encode.{Hash, valid_digest, text, uint64}
use tos_messenger.Negotiation.Money.{
  NetworkDomain, validate_network, canonical_network, same_network,
}
use tos_messenger.Room.Membership.{Membership, is_room, is_agent, usable, contains}
use tos_messenger.Room.Delegation.{Ed25519, Delegation, check_window, derive_endpoint_id}

pub data AuthorityError : Type 0 where
  bad_time bad_network bad_key invalid bad_signature unusable other_membership not_a_member :
      AuthorityError
  bad_delegation other_network out_of_window wrong_signature not_current not_finalized
        not_successor :
      AuthorityError
  bad_order bad_role too_many_roles non_member not_administrator : AuthorityError

pub record Authority : Type 0 where
  pub agent_id : Bytes
  pub endpoint_id : Bytes

-- Authority.Validate
abbrev pub is_authority : Authority → Bool
is_authority a = is_agent a.agent_id && is_prefixed_hash (codes "mep_") a.endpoint_id

abbrev pub same_authority : Authority → Authority → Bool
same_authority a b = eq_bytes a.agent_id b.agent_id && eq_bytes a.endpoint_id b.endpoint_id

pub record MembershipAuthorization : Type 0 where
  pub network : NetworkDomain
  pub room_id : Bytes
  pub epoch : ℕ  -- uint64
  pub membership_digest : Bytes
  pub authority : Authority
  pub issued_at_unix : ℕ  -- uint64
  pub expires_at_unix : ℕ  -- uint64
  pub endpoint_signature : Bytes

pub record AuthorityTransfer : Type 0 where
  pub network : NetworkDomain
  pub room_id : Bytes
  pub prior_epoch : ℕ  -- uint64
  pub next_epoch : ℕ  -- uint64
  pub prior_membership_digest : Bytes
  pub next_membership_digest : Bytes
  pub from : Authority
  pub to : Authority
  pub issued_at_unix : ℕ  -- uint64
  pub expires_at_unix : ℕ  -- uint64
  pub current_endpoint_signature : Bytes

abbrev pub authorization_schema : Bytes
authorization_schema = codes "tos.messaging.room-membership-authorization.v1"

abbrev pub transfer_schema : Bytes
transfer_schema = codes "tos.messaging.room-authority-transfer.v1"

-- Twenty-four hours.
abbrev pub max_window : ℕ
max_window = 86400

-- `issued == 0 || expires <= issued || expires-issued > window`
abbrev pub is_bad_window : ℕ → ℕ → Bool
is_bad_window issued expires =
    issued == 0 || leb expires issued || ltb max_window (expires - issued)

-- appendAuthorityNetwork
unfoldable pub authority_network : NetworkDomain → Result AuthorityError Bytes
authority_network none = err bad_network
authority_network (some n) = do
  map_err (λ _. bad_network) (validate_network n)
  map_err (λ _. bad_network) (canonical_network n)

-- sameAuthorityNetwork
unfoldable pub same_authority_network : NetworkDomain → NetworkDomain → Bool
same_authority_network (some a) (some b) = same_network a b
same_authority_network _ _ = false

-- `signed && len(signature) != ed25519.SignatureSize`
abbrev pub is_bad_signature : Bool → Bytes → Bool
is_bad_signature signed signature = signed && not (length signature == 64)

-- validateMembershipAuthorization
unfoldable pub validate_authorization :
    MembershipAuthorization → Bool → Result AuthorityError (Unit {0})
validate_authorization v signed = do
  refuse_if
      (not (is_room v.room_id)
        || v.epoch == 0
        || not (valid_digest v.membership_digest)
        || not (is_authority v.authority)
        || is_bad_window v.issued_at_unix v.expires_at_unix)
      invalid
  network ← authority_network v.network
  refuse_if (is_bad_signature signed v.endpoint_signature) bad_signature

unfoldable pub authorization_fields : MembershipAuthorization → Bytes → Bytes
authorization_fields v network =
    text authorization_schema
    ++ (network
        ++ (text v.room_id
            ++ (uint64 v.epoch
                ++ (text v.membership_digest
                    ++ (text v.authority.agent_id
                        ++ (text v.authority.endpoint_id
                            ++ (uint64 v.issued_at_unix ++ uint64 v.expires_at_unix)))))))

abbrev pub domain_room_membership_authorization : Bytes
domain_room_membership_authorization =
    codes "tos.messaging.room-membership-authorization.v1" ++ 0 ∷ []

-- MembershipAuthorizationSigningBytes
unfoldable pub authorization_bytes : MembershipAuthorization → Result AuthorityError Bytes
unfolding authorization_fields
authorization_bytes v = do
  validate_authorization v false
  network ← authority_network v.network
  ok (domain_room_membership_authorization ++ authorization_fields v network)

-- SignMembershipAuthorization
unfoldable pub sign_authorization :
    ⦃c : Ed25519⦄ → MembershipAuthorization → Bytes → Result AuthorityError MembershipAuthorization
sign_authorization ⦃c⦄ v key = do
  require (length key == 64) bad_key
  preimage ← authorization_bytes (record v { endpoint_signature = [] })
  ok (record v { endpoint_signature = c.sign key preimage })

abbrev pub seconds_at : Option ℕ → Result AuthorityError ℕ
seconds_at none = err bad_time
seconds_at (some n) = ok n

-- A delegation acts for an authority.
abbrev pub acts_for : Delegation → Authority → Bool
acts_for d a = eq_bytes a.agent_id d.agent_id && eq_bytes a.endpoint_id d.endpoint_id

module _ ⦃h : Hash⦄ where
  -- verifyAuthorityDelegation
  unfoldable pub verify_delegation : Delegation → Time → Result AuthorityError (Unit {0})
  verify_delegation d now = do
    map_err (λ _. bad_delegation) (check_window d now)
    require (length d.identity_public_key == 32) bad_delegation
    derived ←
        map_err (λ _. bad_delegation)
          (derive_endpoint_id d.network d.agent_id d.identity_public_key)
    require (eq_bytes derived d.endpoint_id) bad_delegation

module _ ⦃h : Hash⦄ ⦃c : Ed25519⦄ where
  -- VerifyMembershipAuthorization
  unfoldable pub verify_authorization :
      Membership → MembershipAuthorization → Delegation → Time → Result AuthorityError (Unit {0})
  verify_authorization m v d now = do
    seconds ← seconds_at (unix_seconds now)
    validate_authorization v true
    map_err (λ _. unusable) (usable m)
    require
        (eq_bytes m.room_id v.room_id
          && m.epoch == v.epoch
          && eq_bytes m.digest v.membership_digest)
        other_membership
    require (acts_for d v.authority && contains m v.authority.agent_id) not_a_member
    verify_delegation d now
    require (same_authority_network v.network d.network) other_network
    refuse_if
        (ltb seconds v.issued_at_unix
          || leb v.expires_at_unix seconds
          || ltb d.expires_at_unix v.expires_at_unix)
        out_of_window
    preimage ← authorization_bytes v
    require (c.verify d.identity_public_key preimage v.endpoint_signature) wrong_signature

-- validateAuthorityTransfer
unfoldable pub validate_transfer : AuthorityTransfer → Bool → Result AuthorityError (Unit {0})
validate_transfer v signed = do
  refuse_if
      (not (is_room v.room_id)
        || v.prior_epoch == 0
        || leb v.next_epoch v.prior_epoch
        || not (v.next_epoch == u64 (v.prior_epoch + 1))
        || not (valid_digest v.prior_membership_digest)
        || not (valid_digest v.next_membership_digest)
        || eq_bytes v.prior_membership_digest v.next_membership_digest
        || not (is_authority v.from)
        || not (is_authority v.to)
        || same_authority v.from v.to
        || is_bad_window v.issued_at_unix v.expires_at_unix)
      invalid
  network ← authority_network v.network
  refuse_if (is_bad_signature signed v.current_endpoint_signature) bad_signature

abbrev pub domain_room_authority_transfer : Bytes
domain_room_authority_transfer = codes "tos.messaging.room-authority-transfer.v1" ++ 0 ∷ []

unfoldable pub transfer_fields : AuthorityTransfer → Bytes → Bytes
transfer_fields v network =
    text transfer_schema
    ++ (network
        ++ (text v.room_id
            ++ (uint64 v.prior_epoch
                ++ (uint64 v.next_epoch
                    ++ (text v.prior_membership_digest
                        ++ (text v.next_membership_digest
                            ++ (text v.from.agent_id
                                ++ (text v.from.endpoint_id
                                    ++ (text v.to.agent_id
                                        ++ (text v.to.endpoint_id
                                            ++ (uint64 v.issued_at_unix
                                                ++ uint64 v.expires_at_unix)))))))))))

-- AuthorityTransferSigningBytes
unfoldable pub transfer_bytes : AuthorityTransfer → Result AuthorityError Bytes
unfolding transfer_fields
transfer_bytes v = do
  validate_transfer v false
  network ← authority_network v.network
  ok (domain_room_authority_transfer ++ transfer_fields v network)

-- SignAuthorityTransfer
unfoldable pub sign_transfer :
    ⦃c : Ed25519⦄ → AuthorityTransfer → Bytes → Result AuthorityError AuthorityTransfer
sign_transfer ⦃c⦄ v key = do
  require (length key == 64) bad_key
  preimage ← transfer_bytes (record v { current_endpoint_signature = [] })
  ok (record v { current_endpoint_signature = c.sign key preimage })

module _ ⦃h : Hash⦄ ⦃c : Ed25519⦄ where
  -- The tests of `VerifyAuthorityTransfer` on the two memberships.
  unfoldable pub binds_successor :
      Membership → Membership → AuthorityTransfer → Result AuthorityError (Unit {0})
  binds_successor prior next v = do
    require
        (eq_bytes prior.room_id v.room_id
          && eq_bytes next.room_id v.room_id
          && prior.epoch == v.prior_epoch
          && next.epoch == v.next_epoch
          && eq_bytes prior.digest v.prior_membership_digest
          && eq_bytes next.digest v.next_membership_digest
          && next.epoch == u64 (prior.epoch + 1))
        not_successor
    map_err (λ _. unusable) (usable prior)
    map_err (λ _. unusable) (usable next)
    require (contains prior v.from.agent_id && contains next v.to.agent_id) not_a_member

  -- VerifyAuthorityTransfer
  unfoldable pub verify_transfer :
      Authority
      → Membership
      → Membership
      → AuthorityTransfer
      → Delegation
      → Delegation
      → Time
      → Result AuthorityError (Unit {0})
  unfolding binds_successor
  verify_transfer current prior next v d d' now = do
    seconds ← seconds_at (unix_seconds now)
    validate_transfer v true
    require (same_authority current v.from && acts_for d v.from) not_current
    require (acts_for d' v.to) not_finalized
    verify_delegation d now
    verify_delegation d' now
    require
        (same_authority_network v.network d.network && same_authority_network v.network d'.network)
        other_network
    binds_successor prior next v
    refuse_if
        (ltb seconds v.issued_at_unix
          || leb v.expires_at_unix seconds
          || ltb d.expires_at_unix v.expires_at_unix
          || ltb d'.expires_at_unix v.expires_at_unix)
        out_of_window
    preimage ← transfer_bytes v
    require (c.verify d.identity_public_key preimage v.current_endpoint_signature) wrong_signature
