-- ===== src/Room/Sets.antt =====
-- The members of a room as a set: what normalising, adding and removing do to it.
use tos_messenger.Base.{
  suc, ◌≡◌, refl, ap, ◌∙◌, Bool, true, ◌&&◌, ◌||◌, not, List, [], ◌∷◌, ◌++◌, Bytes, length,
  eq_bytes, eq_bytes→eq, lt_bytes, sort_by, insert_by, all, ok, require, refuse_if, ok-injective,
  require-ok, >>=-eq-ok, arith, inl, inr, Bool-cases,
}
use tos_messenger.Room.Membership.{
  bad_member, member_twice, is_agent, has, check_members, normalize, without,
}

pub has-append : (a : Bytes) (xs ys : List Bytes) → has a (xs ++ ys) ≡ (has a xs || has a ys)
unfolding has
has-append a [] ys = refl
has-append a (x ∷ xs) ys = ground (arith, has-append a xs ys)

has-insert_by :
    (less : Bytes → Bytes → Bool) (a x : Bytes) (ys : List Bytes)
    → has a (insert_by less x ys) ≡ (eq_bytes x a || has a ys)
unfolding has insert_by
has-insert_by less a x [] = refl
has-insert_by less a x (y ∷ ys) = ground (arith, has-insert_by less a x ys)

has-sort_by :
    (less : Bytes → Bytes → Bool) (a : Bytes) (xs : List Bytes) → has a (sort_by less xs) ≡ has a xs
unfolding has sort_by
has-sort_by less a [] = refl
has-sort_by less a (x ∷ xs) =
    has-insert_by less a x (sort_by less xs) ∙ ap (λ b. eq_bytes x a || b) (has-sort_by less a xs)

all-insert_by :
    (less : Bytes → Bytes → Bool) (f : Bytes → Bool) (x : Bytes) (ys : List Bytes)
    → all f (insert_by less x ys) ≡ (f x && all f ys)
unfolding insert_by
all-insert_by less f x [] = refl
all-insert_by less f x (y ∷ ys) = ground (arith, all-insert_by less f x ys)

all-sort_by :
    (less : Bytes → Bytes → Bool) (f : Bytes → Bool) (xs : List Bytes)
    → all f (sort_by less xs) ≡ all f xs
unfolding sort_by
all-sort_by less f [] = refl
all-sort_by less f (x ∷ xs) =
    all-insert_by less f x (sort_by less xs) ∙ ap (λ b. f x && b) (all-sort_by less f xs)

pub has-without :
    (a : Bytes) (gone ms : List Bytes) → has a (without gone ms) ≡ (has a ms && not (has a gone))
unfolding has without
has-without a gone [] = refl
has-without a gone (m ∷ ms) =
    let ih = has-without a gone ms in
    let same : eq_bytes m a ≡ true → has m gone ≡ has a gone =
      λ q. ap (λ z. has z gone) (eq_bytes→eq m a q) in
    elim (Bool-cases (eq_bytes m a)) [ inl e ↦ ground (arith, same e) | inr e ↦ ground arith ]

check_members-agents :
    (seen ms : List Bytes) → check_members seen ms ≡ ok tt → all is_agent ms ≡ true
unfolding check_members
check_members-agents seen [] h = refl
check_members-agents seen (m ∷ ms) h =
    let (_, e1, k1) = >>=-eq-ok (require (is_agent m) bad_member) _ h in
    let (_, e2, k2) = >>=-eq-ok (refuse_if (has m seen) member_twice) _ k1 in
    rw (require-ok _ bad_member e1) (check_members-agents (m ∷ seen) ms k2)

normalize-sorts :
    (ms sorted : List Bytes)
    → normalize ms ≡ ok sorted
    → (check_members [] ms ≡ ok tt) × (sort_by lt_bytes ms ≡ sorted)
unfolding normalize
normalize-sorts ms sorted h =
    let (u, e, k) = >>=-eq-ok (check_members [] ms) _ h in (unit u e, ok-injective k)
  where
    unit : (u : Unit {0}) → check_members [] ms ≡ ok u → check_members [] ms ≡ ok tt
    unit tt e = e

length-insert_by :
    (less : Bytes → Bytes → Bool) (x : Bytes) (ys : List Bytes)
    → length (insert_by less x ys) ≡ suc (length ys)
unfolding insert_by
length-insert_by less x [] = refl
length-insert_by less x (y ∷ ys) = ground (arith, length-insert_by less x ys)

length-sort_by :
    (less : Bytes → Bytes → Bool) (xs : List Bytes) → length (sort_by less xs) ≡ length xs
unfolding sort_by
length-sort_by less [] = refl
length-sort_by less (x ∷ xs) =
    length-insert_by less x (sort_by less xs) ∙ ap suc (length-sort_by less xs)

-- Normalising keeps the set and its size, and makes sure that it is one of Agents.
pub normalize-set :
    (ms sorted : List Bytes)
    → normalize ms ≡ ok sorted
    → ((a : Bytes) → has a sorted ≡ has a ms)
      × (all is_agent sorted ≡ true)
      × (length sorted ≡ length ms)
normalize-set ms sorted h =
    let (checked, s) = normalize-sorts ms sorted h in
    (
      (λ a. rw (← s) (has-sort_by lt_bytes a ms)),
      (rw (← s) (all-sort_by lt_bytes is_agent ms ∙ check_members-agents [] ms checked)),
      (rw (← s) (length-sort_by lt_bytes ms)),
    )
