-- ===== src/Room/Membership.antt =====
-- pkg/room/membership.go, and the commit of pkg/payload/kinds_more.go that it announces. A set of
-- strings, `map[string]struct{}`, is a list that is only searched.
use tos_messenger.Base.{
  ℕ, ◌+◌, Bool, false, ◌||◌, List, [], ◌∷◌, ◌++◌, ltb, leb, ◌==◌, if◌then◌else◌, Bytes, codes,
  length, eq_bytes, lt_bytes, sort_by, is_prefixed_hash, Result, ok, require, refuse_if, ◌>>=◌,
  ◌>>◌, u32, u64,
}
use tos_messenger.Canon.Encode.{Hash, digest, valid_digest, text, uint32, uint64}

pub data RoomError : Type 0 where
  bad_room bad_member member_twice no_members too_many_members no_epoch epoch_exhausted : RoomError
  no_change already_member not_a_member digest_mismatch bad_commit : RoomError
  other_room other_epoch other_count other_digest : RoomError

pub record Membership : Type 0 where
  pub room_id : Bytes
  pub epoch : ℕ  -- uint64
  pub members : List Bytes
  pub digest : Bytes

-- RoomMembershipCommit
pub record RoomMembershipCommit : Type 0 where
  pub room_id : Bytes
  pub epoch : ℕ  -- uint64
  pub membership_digest : Bytes
  pub member_count : ℕ  -- uint32

abbrev pub max_members : ℕ
max_members = 1024

abbrev pub is_room : Bytes → Bool
is_room s = is_prefixed_hash (codes "room_") s

abbrev pub is_agent : Bytes → Bool
is_agent s = is_prefixed_hash (codes "agent_") s

abbrev pub domain_room_membership : Bytes
domain_room_membership = codes "tos.messaging.room-membership.v1" ++ 0 ∷ []

-- Whether a set has a string.
unfoldable pub has : Bytes → List Bytes → Bool
has a [] = false
has a (m ∷ ms) = eq_bytes m a || has a ms

-- The loop of `normalize`, with the set `seen`.
unfoldable pub check_members : List Bytes → List Bytes → Result RoomError (Unit {0})
check_members seen [] = ok tt
check_members seen (m ∷ ms) = do
  require (is_agent m) bad_member
  refuse_if (has m seen) member_twice
  check_members (m ∷ seen) ms

unfoldable pub normalize : List Bytes → Result RoomError (List Bytes)
unfolding check_members
normalize ms = do check_members [] ms; ok (sort_by lt_bytes ms)

unfoldable pub next_epoch : ℕ → Result RoomError ℕ
next_epoch current = do
  refuse_if (leb (u64 (current + 1)) current) epoch_exhausted
  ok (u64 (current + 1))

-- The loop of `Digest` over the sorted members.
unfoldable pub member_fields : List Bytes → Bytes
member_fields [] = []
member_fields (m ∷ ms) = text m ++ member_fields ms

unfoldable pub membership_bytes : Bytes → ℕ → List Bytes → Bytes
unfolding member_fields
membership_bytes room epoch sorted =
    domain_room_membership
    ++ (text room ++ (uint64 epoch ++ (uint32 (u32 (length sorted)) ++ member_fields sorted)))

-- The loop of `Add` over the incoming members.
unfoldable pub all_new : List Bytes → List Bytes → Result RoomError (Unit {0})
all_new present [] = ok tt
all_new present (m ∷ ms) = do refuse_if (has m present) already_member; all_new present ms

-- The first loop of `Remove`, over the departing members.
unfoldable pub all_present : List Bytes → List Bytes → Result RoomError (Unit {0})
all_present present [] = ok tt
all_present present (m ∷ ms) = do require (has m present) not_a_member; all_present present ms

-- The second loop of `Remove`, over the members.
unfoldable pub without : List Bytes → List Bytes → List Bytes
without gone [] = []
without gone (m ∷ ms) = let rest = without gone ms in if has m gone then rest else m ∷ rest

-- Contains
abbrev pub contains : Membership → Bytes → Bool
contains m agent = has agent m.members

-- RoomMembershipCommit.Validate
unfoldable pub validate_commit : RoomMembershipCommit → Result RoomError (Unit {0})
validate_commit c = do
  require (is_room c.room_id) bad_commit
  refuse_if (c.epoch == 0) bad_commit
  require (valid_digest c.membership_digest) bad_commit
  refuse_if (c.member_count == 0) bad_commit

abbrev pub commitment : Membership → RoomMembershipCommit
commitment m = record {
  room_id = m.room_id;
  epoch = m.epoch;
  membership_digest = m.digest;
  member_count = u32 (length m.members);
}

module _ ⦃h : Hash⦄ where
  -- Digest
  unfoldable pub membership_digest : Bytes → ℕ → List Bytes → Result RoomError Bytes
  membership_digest room epoch ms = do
    require (is_room room) bad_room
    refuse_if (epoch == 0) no_epoch
    sorted ← normalize ms
    refuse_if (length sorted == 0) no_members
    refuse_if (ltb max_members (length sorted)) too_many_members
    ok (digest (membership_bytes room epoch sorted))

  unfoldable pub commit : Bytes → ℕ → List Bytes → Result RoomError Membership
  commit room e ms = do
    d ← membership_digest room e ms
    ok (record { room_id = room; epoch = e; members = ms; digest = d })

  unfoldable pub usable : Membership → Result RoomError (Unit {0})
  usable m = do
    require (is_room m.room_id) bad_room
    refuse_if (m.epoch == 0) no_epoch
    refuse_if (length m.members == 0) no_members
    recomputed ← membership_digest m.room_id m.epoch m.members
    require (eq_bytes recomputed m.digest) digest_mismatch

  unfoldable pub found : Bytes → List Bytes → Result RoomError Membership
  found room founders = do
    require (is_room room) bad_room
    members ← normalize founders
    refuse_if (length members == 0) no_members
    commit room 1 members

  unfoldable pub add : Membership → List Bytes → Result RoomError Membership
  unfolding all_new
  add m new_members = do
    usable m
    incoming ← normalize new_members
    refuse_if (length incoming == 0) no_change
    all_new m.members incoming
    next ← normalize (m.members ++ incoming)
    refuse_if (ltb max_members (length next)) too_many_members
    epoch ← next_epoch m.epoch
    commit m.room_id epoch next

  unfoldable pub remove : Membership → List Bytes → Result RoomError Membership
  unfolding all_present without
  remove m leaving = do
    usable m
    departing ← normalize leaving
    refuse_if (length departing == 0) no_change
    all_present m.members departing
    refuse_if (length (without departing m.members) == 0) no_members
    epoch ← next_epoch m.epoch
    commit m.room_id epoch (without departing m.members)

  -- AdvanceForAuthorityTransfer
  unfoldable pub advance_for_authority_transfer : Membership → Result RoomError Membership
  advance_for_authority_transfer m = do
    usable m
    epoch ← next_epoch m.epoch
    commit m.room_id epoch m.members

  -- Announce
  unfoldable pub announce : Membership → Result RoomError RoomMembershipCommit
  unfolding validate_commit
  announce m = do
    usable m
    refuse_if (ltb max_members (length m.members)) too_many_members
    validate_commit (commitment m)
    ok (commitment m)

  -- VerifyCommit
  unfoldable pub verify_commit : Membership → RoomMembershipCommit → Result RoomError (Unit {0})
  verify_commit m c = do
    usable m
    require (eq_bytes c.room_id m.room_id) other_room
    require (c.epoch == m.epoch) other_epoch
    require (c.member_count == u32 (length m.members)) other_count
    require (eq_bytes c.membership_digest m.digest) other_digest
