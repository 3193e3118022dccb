-- ===== src/Room/Changes.antt =====
-- The history of a room: each change commits the next epoch of the changed set.
use tos_messenger.Base.{
  subst, ℕ, ◌+◌, ◌≡◌, refl, sym, ap, ◌∙◌, Bool, true, false, ◌&&◌, ◌||◌, not, List, [], ◌∷◌, ◌++◌,
  ltb, leb, ◌==◌, Bytes, length, eq_bytes_refl, Result, ok, require, refuse_if, ok-injective,
  require-ok, refuse_if-ok, ◌>>=◌, >>=-eq-ok, arith, u64,
}
use tos_messenger.Canon.Encode.{Hash, digest}
use tos_messenger.Room.Membership.{
  RoomError, Membership, is_room, has, normalize, next_epoch, membership_digest, membership_bytes,
  commit, usable, found, add, all_new, remove, all_present, without, advance_for_authority_transfer,
  contains, max_members, bad_room, no_epoch, no_members, too_many_members, epoch_exhausted,
  no_change,
}
use tos_messenger.Room.Sets.{has-append, has-without, normalize-set}

pub data Change : Type 0 where
  adds removes : List Bytes → Change
  transfers : Change

-- What a change is to mean for who is in the room.
abbrev pub amend : Change → (Bytes → Bool) → Bytes → Bool
amend (adds new) inside a = inside a || has a new
amend (removes gone) inside a = inside a && not (has a gone)
amend transfers inside a = inside a

abbrev pub amend_all : List Change → (Bytes → Bool) → Bytes → Bool
amend_all [] inside = inside
amend_all (c ∷ cs) inside = amend_all cs (amend c inside)

amend-congruent :
    (c : Change) (f g : Bytes → Bool) (a : Bytes)
    → ((x : Bytes) → f x ≡ g x)
    → amend c f a ≡ amend c g a
amend-congruent (adds new) f g a e = ap (λ b. b || has a new) (e a)
amend-congruent (removes gone) f g a e = ap (λ b. b && not (has a gone)) (e a)
amend-congruent transfers f g a e = e a

next_epoch-suc : (n m : ℕ) → next_epoch n ≡ ok m → m ≡ n + 1
unfolding next_epoch
next_epoch-suc n m h =
    let (_, e, k) = >>=-eq-ok (refuse_if (leb (u64 (n + 1)) n) epoch_exhausted) _ h in
    let went = refuse_if-ok _ epoch_exhausted e in sym (ok-injective k) ∙ ground arith

module _ ⦃h : Hash⦄ where
  unfoldable pub change : Change → Membership → Result RoomError Membership
  change (adds new) m = add m new
  change (removes gone) m = remove m gone
  change transfers m = advance_for_authority_transfer m

  unfoldable pub change_all : List Change → Membership → Result RoomError Membership
  unfolding change
  change_all [] m = ok m
  change_all (c ∷ cs) m = do next ← change c m; change_all cs next

  -- What a digest was made of.
  pub digest_parts :
      (room : Bytes) (e : ℕ) (ms : List Bytes) (d : Bytes)
      → membership_digest room e ms ≡ ok d
      → (sorted : List Bytes) × (is_room room ≡ true)
        × ((e == 0) ≡ false)
        × (normalize ms ≡ ok sorted)
        × ((length sorted == 0) ≡ false)
        × (ltb max_members (length sorted) ≡ false)
        × (digest (membership_bytes room e sorted) ≡ d)
  unfolding membership_digest
  digest_parts room e ms d k =
      let (_, e1, k1) = >>=-eq-ok (require (is_room room) bad_room) _ k in
      let (_, e2, k2) = >>=-eq-ok (refuse_if (e == 0) no_epoch) _ k1 in
      let (sorted, e3, k3) = >>=-eq-ok (normalize ms) _ k2 in
      let (_, e4, k4) = >>=-eq-ok (refuse_if (length sorted == 0) no_members) _ k3 in
      let (_, e5, k5) =
        >>=-eq-ok (refuse_if (ltb max_members (length sorted)) too_many_members) _ k4 in
      (
        sorted,
        require-ok _ bad_room e1,
        refuse_if-ok _ no_epoch e2,
        e3,
        refuse_if-ok _ no_members e4,
        refuse_if-ok _ too_many_members e5,
        ok-injective k5,
      )

  usable_with :
      (room : Bytes) (e : ℕ) (ms : List Bytes) (d : Bytes)
      → membership_digest room e ms ≡ ok d
      → usable (record { room_id = room; epoch = e; members = ms; digest = d }) ≡ ok tt
  unfolding usable
  usable_with room e ms d k =
      let (sorted, named, numbered, normal, filled, few, same) = digest_parts room e ms d k in
      let (_, _, size) = normalize-set ms sorted normal in
      let some_there : (length ms == 0) ≡ false = rw (← size) filled in
      rw (named, numbered, some_there, k, eq_bytes_refl d) refl

  -- What is committed stands by its own digest.
  commit_lem :
      (room : Bytes) (e : ℕ) (ms : List Bytes) (m : Membership)
      → commit room e ms ≡ ok m
      → (m.room_id ≡ room) × (m.epoch ≡ e) × (m.members ≡ ms) × (usable m ≡ ok tt)
  unfolding commit
  commit_lem room e ms m k =
      let (d, digested, k1) = >>=-eq-ok (membership_digest room e ms) _ k in
      let made = ok-injective k1 in
      (
        ap (λ x. x.room_id) (sym made),
        ap (λ x. x.epoch) (sym made),
        ap (λ x. x.members) (sym made),
        subst (λ x. usable x ≡ ok tt) made (usable_with room e ms d digested),
      )

  -- The next epoch of a room, of a set that the change makes of the old one.
  abbrev pub Follows : (Bytes → Bool) → ℕ → Bytes → Membership → Type 0
  Follows inside epoch room m =
      (m.room_id ≡ room)
      × (m.epoch ≡ epoch)
      × ((a : Bytes) → contains m a ≡ inside a)
      × (usable m ≡ ok tt)

  follows :
      (inside : Bytes → Bool) (m next : Membership) (e : ℕ) (ms : List Bytes)
      → next_epoch m.epoch ≡ ok e
      → commit m.room_id e ms ≡ ok next
      → ((a : Bytes) → has a ms ≡ inside a)
      → Follows inside (m.epoch + 1) m.room_id next
  follows inside m next e ms advanced committed same =
      let (room, epoch, members, stands) = commit_lem m.room_id e ms next committed in
      (
        room,
        epoch ∙ next_epoch-suc m.epoch e advanced,
        (λ a. ap (λ l. has a l) members ∙ same a),
        stands,
      )

  add-Follows :
      (m next : Membership) (new : List Bytes)
      → add m new ≡ ok next
      → Follows (amend (adds new) (contains m)) (m.epoch + 1) m.room_id next
  unfolding add
  add-Follows m next new k =
      let (_, e1, k1) = >>=-eq-ok (usable m) _ k in
      let (incoming, e2, k2) = >>=-eq-ok (normalize new) _ k1 in
      let (_, e3, k3) = >>=-eq-ok (refuse_if (length incoming == 0) no_change) _ k2 in
      let (_, e4, k4) = >>=-eq-ok (all_new m.members incoming) _ k3 in
      let (ms, e5, k5) = >>=-eq-ok (normalize (m.members ++ incoming)) _ k4 in
      let (_, e6, k6) = >>=-eq-ok (refuse_if (ltb max_members (length ms)) too_many_members) _ k5 in
      let (e, e7, k7) = >>=-eq-ok (next_epoch m.epoch) _ k6 in
      follows _ m next e ms e7 k7 λ a.
        (normalize-set (m.members ++ incoming) ms e5).0 a
        ∙ has-append a m.members incoming
        ∙ ap (λ b. has a m.members || b) ((normalize-set new incoming e2).0 a)

  remove-Follows :
      (m next : Membership) (gone : List Bytes)
      → remove m gone ≡ ok next
      → Follows (amend (removes gone) (contains m)) (m.epoch + 1) m.room_id next
  unfolding remove
  remove-Follows m next gone k =
      let (_, e1, k1) = >>=-eq-ok (usable m) _ k in
      let (departing, e2, k2) = >>=-eq-ok (normalize gone) _ k1 in
      let (_, e3, k3) = >>=-eq-ok (refuse_if (length departing == 0) no_change) _ k2 in
      let (_, e4, k4) = >>=-eq-ok (all_present m.members departing) _ k3 in
      let (_, e5, k5) =
        >>=-eq-ok (refuse_if (length (without departing m.members) == 0) no_members) _ k4 in
      let (e, e6, k6) = >>=-eq-ok (next_epoch m.epoch) _ k5 in
      follows _ m next e (without departing m.members) e6 k6 λ a.
        has-without a departing m.members
        ∙ ap (λ b. has a m.members && not b) ((normalize-set gone departing e2).0 a)

  transfer-Follows :
      (m next : Membership)
      → advance_for_authority_transfer m ≡ ok next
      → Follows (contains m) (m.epoch + 1) m.room_id next
  unfolding advance_for_authority_transfer
  transfer-Follows m next k =
      let (_, e1, k1) = >>=-eq-ok (usable m) _ k in
      let (e, e2, k2) = >>=-eq-ok (next_epoch m.epoch) _ k1 in
      follows _ m next e m.members e2 k2 (λ a. refl)

  pub change-Follows :
      (c : Change) (m next : Membership)
      → change c m ≡ ok next
      → Follows (amend c (contains m)) (m.epoch + 1) m.room_id next
  unfolding change
  change-Follows (adds new) m next k = add-Follows m next new k
  change-Follows (removes gone) m next k = remove-Follows m next gone k
  change-Follows transfers m next k = transfer-Follows m next k

  found-Follows :
      (room : Bytes) (founders : List Bytes) (m : Membership)
      → found room founders ≡ ok m
      → Follows (λ a. has a founders) 1 room m
  unfolding found
  found-Follows room founders m k =
      let (_, e1, k1) = >>=-eq-ok (require (is_room room) bad_room) _ k in
      let (ms, e2, k2) = >>=-eq-ok (normalize founders) _ k1 in
      let (_, e3, k3) = >>=-eq-ok (refuse_if (length ms == 0) no_members) _ k2 in
      let (same, epoch, members, stands) = commit_lem room 1 ms m k3 in
      (same, epoch, (λ a. ap (λ l. has a l) members ∙ (normalize-set founders ms e2).0 a), stands)

  change_all-Follows :
      (cs : List Change) (inside : Bytes → Bool) (n : ℕ) (room : Bytes) (m last : Membership)
      → Follows inside n room m
      → change_all cs m ≡ ok last
      → Follows (amend_all cs inside) (n + length cs) room last
  unfolding change_all
  change_all-Follows [] inside n room m last (r, e, there, stands) k =
      subst (λ x. Follows inside (n + 0) room x) (ok-injective k) (r, omega arith, there, stands)
  change_all-Follows (c ∷ cs) inside n room m last (r, e, there, stands) k =
      let (next, e1, k1) = >>=-eq-ok (change c m) _ k in
      let (r', e', there', stands') = change-Follows c m next e1 in
      let (rl, el, therel, standsl) =
        change_all-Follows cs (amend c inside) (n + 1) room next last
          (
            r' ∙ r,
            e' ∙ ap (λ x. x + 1) e,
            (λ a. there' a ∙ amend-congruent c (contains m) inside a there),
            stands',
          )
          k1 in
      (rl, omega arith, therel, standsl)

  -- A room that was founded and then changed is at the epoch that counts the changes, has exactly
  -- the members that the changes leave of the founders, and stands by its own digest.
  pub history-Follows :
      (room : Bytes) (founders : List Bytes) (cs : List Change) (m last : Membership)
      → found room founders ≡ ok m
      → change_all cs m ≡ ok last
      → (last.room_id ≡ room)
        × (last.epoch ≡ 1 + length cs)
        × ((a : Bytes) → contains last a ≡ amend_all cs (λ z. has z founders) a)
        × (usable last ≡ ok tt)
  history-Follows room founders cs m last founded changed =
      change_all-Follows cs _ 1 room m last (found-Follows room founders m founded) changed
