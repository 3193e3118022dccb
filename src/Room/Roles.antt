-- ===== src/Room/Roles.antt =====
-- pkg/room/roles.go: the signed list of elevated roles, and what a role allows.
use tos_messenger.Base.{
  ℕ, zero, suc, ◌+◌, ◌/◌, Bool, true, false, ◌&&◌, ◌||◌, not, Option, none, some, List, [], ◌∷◌,
  ◌++◌, ltb, leb, ◌==◌, if◌then◌else◌, Bytes, codes, length, eq_bytes, lt_bytes, Result, ok, err,
  require, refuse_if, map_err, ◌>>=◌, ◌>>◌, Time, unix_seconds, u32,
}
use tos_messenger.Canon.Encode.{Hash, valid_digest, text, uint64, uint32}
use tos_messenger.Negotiation.Money.{NetworkDomain}
use tos_messenger.Room.Membership.{Membership, is_room, is_agent, announce, contains}
use tos_messenger.Room.Delegation.{Ed25519, Delegation}
use tos_messenger.Room.Authority.{
  Authority, AuthorityError, is_authority, same_authority, is_bad_window, is_bad_signature,
  authority_network, same_authority_network, acts_for, verify_delegation, seconds_at, invalid,
  bad_signature, bad_key, unusable, other_membership, not_current, other_network, out_of_window,
  wrong_signature, bad_order, bad_role, too_many_roles, non_member, not_administrator,
}

-- `other_role` stands for every string that names no role; the empty one is Go's zero value.
pub data Role : Type 0 where
  administrator moderator : Role
  other_role : Bytes → Role

pub data Action : Type 0 where
  post moderate change_membership change_roles transfer_authority : Action
  other_action : Bytes → Action

pub record RoleAssignment : Type 0 where
  pub agent_id : Bytes
  pub role : Role

pub record RolePolicy : Type 0 where
  pub network : NetworkDomain
  pub room_id : Bytes
  pub membership_epoch : ℕ  -- uint64
  pub membership_digest : Bytes
  pub revision : ℕ  -- uint64
  pub assignments : List RoleAssignment
  pub authority : Authority
  pub issued_at_unix : ℕ  -- uint64
  pub expires_at_unix : ℕ  -- uint64
  pub endpoint_signature : Bytes

abbrev pub role_text : Role → Bytes
role_text administrator = codes "administrator"
role_text moderator = codes "moderator"
role_text (other_role s) = s

-- `index > 0 && before >= id`
abbrev pub is_out_of_order : Option Bytes → Bytes → Bool
is_out_of_order none id = false
is_out_of_order (some before) id = not (lt_bytes before id)

-- The administrators and the moderators that were counted, with one more assignment.
abbrev pub counted : Role → ℕ × ℕ → Result AuthorityError (ℕ × ℕ)
counted administrator (admins, moderators) = ok (admins + 1, moderators)
counted moderator (admins, moderators) = ok (admins, moderators + 1)
counted (other_role s) n = err bad_role

-- The loop of `validateRolePolicy`, behind an identifier.
unfoldable pub count_roles :
    Option Bytes → ℕ × ℕ → List RoleAssignment → Result AuthorityError (ℕ × ℕ)
count_roles before n [] = ok n
count_roles before n (a ∷ rest) = do
  refuse_if (not (is_agent a.agent_id) || is_out_of_order before a.agent_id) bad_order
  next ← counted a.role n
  count_roles (some a.agent_id) next rest

-- validateRolePolicy
unfoldable pub validate_role_policy : RolePolicy → Bool → Result AuthorityError (Unit {0})
unfolding count_roles
validate_role_policy p signed = do
  refuse_if
      (not (is_room p.room_id)
        || p.membership_epoch == 0
        || not (valid_digest p.membership_digest)
        || p.revision == 0
        || not (is_authority p.authority)
        || is_bad_window p.issued_at_unix p.expires_at_unix
        || length p.assignments == 0
        || ltb 20 (length p.assignments))
      invalid
  network ← authority_network p.network
  n ← count_roles none (0, 0) p.assignments
  refuse_if (n.0 == 0 || ltb 4 n.0 || ltb 16 n.1) too_many_roles
  refuse_if (is_bad_signature signed p.endpoint_signature) bad_signature

unfoldable pub assignment_fields : List RoleAssignment → Bytes
assignment_fields [] = []
assignment_fields (a ∷ rest) =
    text a.agent_id ++ (text (role_text a.role) ++ assignment_fields rest)

abbrev pub role_policy_schema : Bytes
role_policy_schema = codes "tos.messaging.room-role-policy.v1"

abbrev pub domain_room_role_policy : Bytes
domain_room_role_policy = role_policy_schema ++ 0 ∷ []

unfoldable pub role_policy_fields : RolePolicy → Bytes → Bytes
unfolding assignment_fields
role_policy_fields p network =
    text role_policy_schema
    ++ (network
        ++ (text p.room_id
            ++ (uint64 p.membership_epoch
                ++ (text p.membership_digest
                    ++ (uint64 p.revision
                        ++ (uint32 (u32 (length p.assignments))
                            ++ (assignment_fields p.assignments
                                ++ (text p.authority.agent_id
                                    ++ (text p.authority.endpoint_id
                                        ++ (uint64 p.issued_at_unix
                                            ++ uint64 p.expires_at_unix))))))))))

-- RolePolicySigningBytes
unfoldable pub role_policy_bytes : RolePolicy → Result AuthorityError Bytes
unfolding role_policy_fields
role_policy_bytes p = do
  validate_role_policy p false
  network ← authority_network p.network
  ok (domain_room_role_policy ++ role_policy_fields p network)

-- SignRolePolicy
unfoldable pub sign_role_policy :
    ⦃c : Ed25519⦄ → RolePolicy → Bytes → Result AuthorityError RolePolicy
sign_role_policy ⦃c⦄ p key = do
  require (length key == 64) bad_key
  preimage ← role_policy_bytes (record p { endpoint_signature = [] })
  ok (record p { endpoint_signature = c.sign key preimage })

-- The test of `RoleOf` at an index. `sort.Search` asks for none out of range.
unfoldable pub reaches : Bytes → List RoleAssignment → ℕ → Bool
reaches id [] i = true
reaches id (a ∷ rest) zero = not (lt_bytes a.agent_id id)
reaches id (a ∷ rest) (suc i) = reaches id rest i

-- The loop of `sort.Search`, with at most so many rounds.
unfoldable pub search_loop : ℕ → (ℕ → Bool) → ℕ → ℕ → ℕ
search_loop zero f lo hi = lo
search_loop (suc rounds) f lo hi = elim (ltb lo hi) [
  | false ↦ lo
  | true ↦ elim (f ((lo + hi) / 2)) [
    | false ↦ search_loop rounds f ((lo + hi) / 2 + 1) hi
    | true ↦ search_loop rounds f lo ((lo + hi) / 2)
  ]
]

-- The role at an index, if the identifier stands there.
unfoldable pub role_at : Bytes → List RoleAssignment → ℕ → Role
role_at id [] i = other_role []
role_at id (a ∷ rest) zero = if eq_bytes a.agent_id id then a.role else other_role []
role_at id (a ∷ rest) (suc i) = role_at id rest i

-- RoleOf
unfoldable pub role_of : RolePolicy → Bytes → Role
unfolding search_loop reaches role_at
role_of p id =
    role_at id p.assignments (
      search_loop (length p.assignments) (λ i. reaches id p.assignments i) 0 (length p.assignments))

abbrev pub is_administrator : Role → Bool
is_administrator administrator = true
is_administrator _ = false

abbrev pub is_moderator : Role → Bool
is_moderator moderator = true
is_moderator _ = false

-- The `switch` of `Allows`.
abbrev pub permits : Role → Action → Bool
permits r post = true
permits r moderate = is_administrator r || is_moderator r
permits r change_membership = is_administrator r
permits r change_roles = is_administrator r
permits r transfer_authority = is_administrator r
permits r (other_action s) = false

-- Allows
unfoldable pub allows : RolePolicy → Membership → Bytes → Action → Bool
allows p m id action =
    contains m id
    && eq_bytes p.room_id m.room_id
    && p.membership_epoch == m.epoch
    && eq_bytes p.membership_digest m.digest
    && permits (role_of p id) action

-- The loop of `VerifyRolePolicy` over the assignments.
unfoldable pub all_members : Membership → List RoleAssignment → Result AuthorityError (Unit {0})
all_members m [] = ok tt
all_members m (a ∷ rest) = do require (contains m a.agent_id) non_member; all_members m rest

module _ ⦃h : Hash⦄ ⦃c : Ed25519⦄ where
  -- VerifyRolePolicy
  unfoldable pub verify_role_policy :
      RolePolicy → Membership → Authority → Delegation → Time → Result AuthorityError (Unit {0})
  unfolding all_members
  verify_role_policy p m current d now = do
    seconds ← seconds_at (unix_seconds now)
    validate_role_policy p true
    commitment ← map_err (λ _. unusable) (announce m)
    require
        (eq_bytes p.room_id m.room_id
          && p.membership_epoch == m.epoch
          && eq_bytes p.membership_digest commitment.membership_digest)
        other_membership
    require (same_authority p.authority current && acts_for d p.authority) not_current
    verify_delegation d now
    require (same_authority_network p.network d.network) other_network
    refuse_if
        (ltb seconds p.issued_at_unix
          || leb p.expires_at_unix seconds
          || ltb d.expires_at_unix p.expires_at_unix)
        out_of_window
    all_members m p.assignments
    require (is_administrator (role_of p p.authority.agent_id)) not_administrator
    preimage ← role_policy_bytes p
    require (c.verify d.identity_public_key preimage p.endpoint_signature) wrong_signature
