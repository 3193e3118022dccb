-- ===== src/Examples/Rooming.antt =====
-- A room of three Agents, its policy, and a restored negotiation.
use tos_messenger.Base.{
  ℕ, ◌≡◌, ◌⊎◌, refl, arith, true, false, some, List, [], ◌∷◌, ◌++◌, Bytes, codes, ok, length, ◌+◌,
  is_prefixed_hash, is_hash, is_lower_hex, is_digit, sort_by, insert_by,
}
use tos_messenger.Canon.Encode.{digest, valid_digest, is_zero, uint32, uint64, text, bytes, hash32}
use tos_messenger.Canon.Hex.{hex_encode, hex_decode}
use tos_messenger.Negotiation.Money.{validate_network, canonical_network}
use tos_messenger.Room.Membership.{
  Membership, RoomMembershipCommit, has, check_members, normalize, next_epoch, member_fields,
  membership_bytes, membership_digest, commit, usable, found, add, all_new, contains, announce,
  validate_commit, verify_commit, commitment,
}
use tos_messenger.Room.Authority.{
  domain_room_membership_authorization, Authority, MembershipAuthorization, authority_network,
  authorization_bytes, authorization_fields, validate_authorization,
}
use tos_messenger.Room.Roles.{
  RolePolicy, administrator, moderator, post, moderate, role_of, search_loop, reaches, role_at,
  allows, validate_role_policy, count_roles,
}
use tos_messenger.Room.Changes.{Change, adds, change, change_all, amend_all, history-Follows}
use tos_messenger.Room.Commits.{PreimagesCollide, verify_commit_binds}
use tos_messenger.Room.Grants.{listed_role, role_of-listed_role, allows_once}
use tos_messenger.Room.Signed.{authorization, unsigned, signing_bytes_bind}
use tos_messenger.Examples.Data.{toy_hash, toy_sum, total_byte, hex64, home, repeat}

abbrev agent : ℕ → Bytes
agent c = codes "agent_" ++ repeat 64 c

abbrev room : Bytes
room = codes "room_" ++ hex64

abbrev founders : List Bytes
founders = agent b'b' ∷ agent b'a' ∷ []

abbrev founded : Membership
founded = record {
  room_id = room;
  epoch = 1;
  members = agent b'a' ∷ agent b'b' ∷ [];
  digest = digest (membership_bytes room 1 (agent b'a' ∷ agent b'b' ∷ []));
}

abbrev grown : Membership
grown = record {
  room_id = room;
  epoch = 2;
  members = agent b'a' ∷ agent b'b' ∷ agent b'c' ∷ [];
  digest = digest (membership_bytes room 2 (agent b'a' ∷ agent b'b' ∷ agent b'c' ∷ []));
}

abbrev changes : List Change
changes = adds (agent b'c' ∷ []) ∷ []

found_runs : found room founders ≡ ok founded
unfolding found normalize check_members has commit membership_digest is_prefixed_hash is_hash
    is_lower_hex is_digit sort_by insert_by
found_runs = refl

grow_runs : change (adds (agent b'c' ∷ [])) founded ≡ ok grown
unfolding change add all_new usable normalize check_members has commit membership_digest
    membership_bytes member_fields next_epoch is_prefixed_hash is_hash is_lower_hex is_digit sort_by
    insert_by digest text uint32 uint64 hex_encode toy_sum total_byte
grow_runs = refl

changes_run : change_all changes founded ≡ ok grown
unfolding change_all
changes_run = rw grow_runs refl

history-Follows_example :
    (grown.room_id ≡ room)
    × (grown.epoch ≡ 1 + length changes)
    × ((a : Bytes) → contains grown a ≡ amend_all changes (λ z. has z founders) a)
    × (usable grown ≡ ok tt)
history-Follows_example = history-Follows room founders changes founded grown found_runs changes_run

abbrev announced : RoomMembershipCommit
announced = commitment grown

announce_runs : announce grown ≡ ok announced
unfolding announce validate_commit usable normalize check_members has membership_digest
    membership_bytes member_fields is_prefixed_hash is_hash is_lower_hex is_digit sort_by insert_by
    digest text uint32 uint64 hex_encode hex_decode toy_sum total_byte valid_digest is_zero
announce_runs = refl

verify_runs : verify_commit grown announced ≡ ok tt
unfolding verify_commit usable normalize check_members has membership_digest membership_bytes
    member_fields is_prefixed_hash is_hash is_lower_hex is_digit sort_by insert_by digest text
    uint32 uint64 hex_encode hex_decode toy_sum total_byte
verify_runs = refl

verify_commit_binds_example :
    ((grown.room_id ≡ grown.room_id)
      × (grown.epoch ≡ grown.epoch)
      × (length grown.members ≡ length grown.members)
      × ((a : Bytes) → contains grown a ≡ contains grown a))
    ⊎ PreimagesCollide grown.room_id grown.epoch grown.members grown.room_id grown.epoch
        grown.members
verify_commit_binds_example =
    verify_commit_binds grown grown announced (omega arith) (omega arith) announce_runs verify_runs

abbrev alice : Authority
alice = record { agent_id = agent b'a'; endpoint_id = codes "mep_" ++ hex64 }

abbrev policy : RolePolicy
policy = record {
  network = some home;
  room_id = room;
  membership_epoch = 1;
  membership_digest = founded.digest;
  revision = 1;
  assignments =
      record { agent_id = agent b'a'; role = administrator }
      ∷ record { agent_id = agent b'b'; role = moderator }
      ∷ [];
  authority = alice;
  issued_at_unix = 100;
  expires_at_unix = 200;
  endpoint_signature = [];
}

policy_valid : validate_role_policy policy false ≡ ok tt
unfolding validate_role_policy count_roles authority_network validate_network canonical_network
    hash32 bytes membership_bytes member_fields is_prefixed_hash is_hash is_lower_hex is_digit
    digest text uint32 uint64 hex_encode hex_decode toy_sum total_byte valid_digest is_zero
policy_valid = refl

role_of-listed_role_example :
    role_of policy (agent b'b') ≡ listed_role (agent b'b') policy.assignments
role_of-listed_role_example = role_of-listed_role policy false (agent b'b') policy_valid

moderates : allows policy founded (agent b'b') moderate ≡ true
unfolding allows role_of search_loop reaches role_at has membership_bytes member_fields digest text
    uint32 uint64 hex_encode toy_sum total_byte
moderates = refl

allows_once_example :
    (contains founded (agent b'b') ≡ true) × (allows policy grown (agent b'a') post ≡ false)
allows_once_example =
    allows_once policy founded grown (adds (agent b'c' ∷ [])) (agent b'b') (agent b'a') moderate
      post moderates grow_runs

abbrev permission : MembershipAuthorization
permission = record {
  network = some home;
  room_id = room;
  epoch = 1;
  membership_digest = founded.digest;
  authority = alice;
  issued_at_unix = 100;
  expires_at_unix = 200;
  endpoint_signature = [];
}

abbrev signed_permission : MembershipAuthorization
signed_permission = record permission { endpoint_signature = repeat 64 7 }

abbrev network_bytes : Bytes
network_bytes = text home.id ++ (bytes (repeat 32 170) ++ bytes (repeat 32 170))

abbrev permission_bytes : Bytes
permission_bytes =
    domain_room_membership_authorization ++ authorization_fields permission network_bytes

permission_runs : authorization_bytes permission ≡ ok permission_bytes
unfolding authorization_bytes validate_authorization authorization_fields authority_network
    validate_network canonical_network hash32 bytes membership_bytes member_fields is_prefixed_hash
    is_hash is_lower_hex is_digit digest text uint32 uint64 hex_encode hex_decode toy_sum total_byte
    valid_digest is_zero
permission_runs = refl

signed_runs : authorization_bytes signed_permission ≡ ok permission_bytes
unfolding authorization_bytes validate_authorization authorization_fields authority_network
    validate_network canonical_network hash32 bytes membership_bytes member_fields is_prefixed_hash
    is_hash is_lower_hex is_digit digest text uint32 uint64 hex_encode hex_decode toy_sum total_byte
    valid_digest is_zero
signed_runs = refl

signing_bytes_bind_example :
    unsigned (authorization permission) ≡ unsigned (authorization signed_permission)
signing_bytes_bind_example =
    signing_bytes_bind (authorization permission) (authorization signed_permission) permission_bytes
      ((omega arith), (omega arith), (omega arith)) ((omega arith), (omega arith), (omega arith))
      permission_runs signed_runs
