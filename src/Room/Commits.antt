-- ===== src/Room/Commits.antt =====
-- What the digest of a membership binds, and with it a commit that `VerifyCommit` accepts.
use tos_messenger.Base.{
  &&-true, ℕ, ◌^◌, ◌<◌, ◌≡◌, refl, sym, ap, ◌∙◌, true, false, List, [], ◌∷◌, ltb, ◌==◌, Bytes,
  codes, length, all, eq_bytes, eq_bytes→eq, eq_bytes_refl, ok, require, refuse_if, ok-injective,
  require-ok, >>=-eq-ok, arith, ◌⊎◌, inl, inr, u32, length_of_is_prefixed_hash,
}
use tos_messenger.Canon.Encode.{Hash}
use tos_messenger.Canon.Leads.{uint32_lead, uint64_lead, text_lead}
use tos_messenger.Canon.Collision.{Collides, digest_binds, append_cancel}
use tos_messenger.Room.Membership.{
  normalize, Membership, RoomMembershipCommit, is_room, is_agent, has, membership_digest,
  membership_bytes, member_fields, usable, announce, verify_commit, validate_commit, commitment,
  contains, max_members, domain_room_membership, bad_room, no_epoch, no_members, too_many_members,
  digest_mismatch, other_room, other_epoch, other_count, other_digest,
}
use tos_messenger.Room.Sets.{normalize-set}
use tos_messenger.Room.Changes.{digest_parts}

member_fields-injective :
    (xs ys : List Bytes)
    → length xs ≡ length ys
    → all is_agent xs ≡ true
    → all is_agent ys ≡ true
    → member_fields xs ≡ member_fields ys
    → xs ≡ ys
unfolding member_fields
member_fields-injective [] [] n hx hy e = refl
member_fields-injective [] (y ∷ ys) n hx hy e = absurd (omega arith)
member_fields-injective (x ∷ xs) [] n hx hy e = absurd (omega arith)
member_fields-injective (x ∷ xs) (y ∷ ys) n hx hy e =
    let (ax, hxs) = &&-true (is_agent x) (all is_agent xs) hx in
    let (ay, hys) = &&-true (is_agent y) (all is_agent ys) hy in
    let (same, rest) = text_lead x y _ _ (short x ax) (short y ay) e in
    let tails = member_fields-injective xs ys (omega arith) hxs hys rest in λ i. same i ∷ tails i
  where
    short : (z : Bytes) → is_agent z ≡ true → length z < 2 ^ 32
    short z a = ground (arith, length_of_is_prefixed_hash (codes "agent_") z a)

module _ ⦃h : Hash⦄ where
  membership_bytes-binds :
      (room room' : Bytes) (e e' : ℕ) (xs ys : List Bytes)
      → is_room room ≡ true
      → is_room room' ≡ true
      → e < 2 ^ 64
      → e' < 2 ^ 64
      → ltb max_members (length xs) ≡ false
      → ltb max_members (length ys) ≡ false
      → all is_agent xs ≡ true
      → all is_agent ys ≡ true
      → membership_bytes room e xs ≡ membership_bytes room' e' ys
      → (room ≡ room') × (e ≡ e') × (xs ≡ ys)
  unfolding membership_bytes
  membership_bytes-binds room room' e e' xs ys r r' he he' nx ny ax ay same =
      let (rooms, k1) =
        text_lead room room' _ _ (short room r) (short room' r')
          (append_cancel domain_room_membership _ _ same) in
      let (epochs, k2) = uint64_lead e e' _ _ he he' k1 in
      let (counts, k3) =
        uint32_lead (u32 (length xs)) (u32 (length ys)) _ _ (omega arith) (omega arith) k2 in
      (rooms, epochs, member_fields-injective xs ys (ground arith) ax ay k3)
    where
      short : (z : Bytes) → is_room z ≡ true → length z < 2 ^ 32
      short z a = ground (arith, length_of_is_prefixed_hash (codes "room_") z a)

  -- The preimages of these two memberships, of their sorted members, are different and have one
  -- SHA-256.
  abbrev pub PreimagesCollide : Bytes → ℕ → List Bytes → Bytes → ℕ → List Bytes → Type 0
  PreimagesCollide room e ms room' e' ns =
      (xs : List Bytes) × (ys : List Bytes) × (normalize ms ≡ ok xs)
      × (normalize ns ≡ ok ys)
      × Collides (membership_bytes room e xs) (membership_bytes room' e' ys)

  -- Memberships with one digest are of one room, one epoch and one set of members, or else their
  -- preimages collide.
  pub membership_digest_binds :
      (room room' : Bytes) (e e' : ℕ) (ms ns : List Bytes) (d : Bytes)
      → e < 2 ^ 64
      → e' < 2 ^ 64
      → membership_digest room e ms ≡ ok d
      → membership_digest room' e' ns ≡ ok d
      → ((room ≡ room') × (e ≡ e') × (length ms ≡ length ns) × ((a : Bytes) → has a ms ≡ has a ns))
        ⊎ PreimagesCollide room e ms room' e' ns
  membership_digest_binds room room' e e' ms ns d he he' k k' =
      let (xs, r, _, nx, _, fx, dx) = digest_parts room e ms d k in
      let (ys, r', _, ny, _, fy, dy) = digest_parts room' e' ns d k' in
      let (sx, ax, lx) = normalize-set ms xs nx in
      let (sy, ay, ly) = normalize-set ns ys ny in
      elim (digest_binds _ _ (dx ∙ sym dy)) [
        | inr c ↦ inr (xs, ys, nx, ny, c)
        | inl same ↦
            let (rooms, epochs, sets) =
              membership_bytes-binds room room' e e' xs ys r r' he he' fx fy ax ay same in
            inl (
              rooms,
              epochs,
              sym lx ∙ ap length sets ∙ ly,
              λ a. sym (sx a) ∙ ap (λ l. has a l) sets ∙ sy a,
            )
      ]

  usable-digest :
      (m : Membership)
      → usable m ≡ ok tt
      → membership_digest m.room_id m.epoch m.members ≡ ok m.digest
  unfolding usable
  usable-digest m k =
      let (_, e1, k1) = >>=-eq-ok (require (is_room m.room_id) bad_room) _ k in
      let (_, e2, k2) = >>=-eq-ok (refuse_if (m.epoch == 0) no_epoch) _ k1 in
      let (_, e3, k3) = >>=-eq-ok (refuse_if (length m.members == 0) no_members) _ k2 in
      let (d, e4, k4) = >>=-eq-ok (membership_digest m.room_id m.epoch m.members) _ k3 in
      e4 ∙ ap ok (eq_bytes→eq d m.digest (require-ok _ digest_mismatch k4))

  announce-parts :
      (m : Membership) (c : RoomMembershipCommit)
      → announce m ≡ ok c
      → (usable m ≡ ok tt) × (c ≡ commitment m)
  unfolding announce
  announce-parts m c k =
      let (tt', e1, k1) = >>=-eq-ok (usable m) _ k in
      let (_, e2, k2) =
        >>=-eq-ok (refuse_if (ltb max_members (length m.members)) too_many_members) _ k1 in
      let (_, e3, k3) = >>=-eq-ok (validate_commit (commitment m)) _ k2 in
      (unit tt' e1, sym (ok-injective k3))
    where
      unit : (u : Unit {0}) → usable m ≡ ok u → usable m ≡ ok tt
      unit tt e = e

  verify-parts :
      (m : Membership) (c : RoomMembershipCommit)
      → verify_commit m c ≡ ok tt
      → (usable m ≡ ok tt) × (c.membership_digest ≡ m.digest)
  unfolding verify_commit
  verify-parts m c k =
      let (tt', e1, k1) = >>=-eq-ok (usable m) _ k in
      let (_, e2, k2) = >>=-eq-ok (require (eq_bytes c.room_id m.room_id) other_room) _ k1 in
      let (_, e3, k3) = >>=-eq-ok (require (c.epoch == m.epoch) other_epoch) _ k2 in
      let (_, e4, k4) =
        >>=-eq-ok (require (c.member_count == u32 (length m.members)) other_count) _ k3 in
      (unit tt' e1, eq_bytes→eq _ _ (require-ok _ other_digest k4))
    where
      unit : (u : Unit {0}) → usable m ≡ ok u → usable m ≡ ok tt
      unit tt e = e

  -- A membership verifies the commit that it announces.
  pub announce-verify :
      (m : Membership) (c : RoomMembershipCommit) → announce m ≡ ok c → verify_commit m c ≡ ok tt
  unfolding verify_commit
  announce-verify m c k =
      let (stands, same) = announce-parts m c k in
      rw (same, stands) (rw (eq_bytes_refl m.room_id, eq_bytes_refl m.digest) (ground arith))

  -- A membership verifies a commit that another one announced only if both are of one room, one
  -- epoch and one set of members, or else the preimages of these two memberships are different and
  -- have one SHA-256. The epochs are uint64 values.
  pub verify_commit_binds :
      (m other : Membership) (c : RoomMembershipCommit)
      → m.epoch < 2 ^ 64
      → other.epoch < 2 ^ 64
      → announce m ≡ ok c
      → verify_commit other c ≡ ok tt
      → ((m.room_id ≡ other.room_id)
          × (m.epoch ≡ other.epoch)
          × (length m.members ≡ length other.members)
          × ((a : Bytes) → contains m a ≡ contains other a))
        ⊎ PreimagesCollide m.room_id m.epoch m.members other.room_id other.epoch other.members
  verify_commit_binds m other c hm ho k v =
      let (stands, same) = announce-parts m c k in
      let (stands', digests) = verify-parts other c v in
      membership_digest_binds _ _ _ _ _ _ m.digest hm ho (usable-digest m stands)
        (usable-digest other stands' ∙ ap ok (sym digests ∙ ap (λ x. x.membership_digest) same))
