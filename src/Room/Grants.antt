-- ===== src/Room/Grants.antt =====
-- What a role policy grants: what it lists, to members, for one epoch.
use tos_messenger.Base.{
  subst, ℕ, zero, suc, ◌+◌, ◌-◌, ◌/◌, ◌<◌, ◌≤◌, ◌≡◌, refl, sym, Bool, true, false, ◌&&◌, ◌||◌, not,
  Option, none, some, List, [], ◌∷◌, ltb, ◌==◌, if◌then◌else◌, Bytes, length, eq_bytes, eq_bytes→eq,
  lt_bytes, ok, refuse_if, refuse_if-ok, >>=-eq-ok, arith, inl, inr, Bool-cases,
}
use tos_messenger.Canon.Encode.{Hash, valid_digest}
use tos_messenger.Room.Membership.{Membership, contains, is_agent, is_room}
use tos_messenger.Room.Authority.{
  bad_order, invalid, authority_network, is_authority, is_bad_window,
}
use tos_messenger.Room.Roles.{
  Role, Action, other_role, RoleAssignment, RolePolicy, count_roles, counted, is_out_of_order,
  validate_role_policy, reaches, search_loop, role_at, role_of, allows,
}
use tos_messenger.Room.Changes.{Change, change, change-Follows}

lt_bytes_irrefl : (x : Bytes) → lt_bytes x x ≡ false
lt_bytes_irrefl [] = refl
lt_bytes_irrefl (a ∷ x) = ground (arith, lt_bytes_irrefl x)

lt_bytes_trans : (x y z : Bytes) → lt_bytes x y ≡ true → lt_bytes y z ≡ true → lt_bytes x z ≡ true
lt_bytes_trans [] [] z h k = cc
lt_bytes_trans [] (b ∷ y) [] h k = cc
lt_bytes_trans [] (b ∷ y) (c ∷ z) h k = refl
lt_bytes_trans (a ∷ x) [] z h k = cc
lt_bytes_trans (a ∷ x) (b ∷ y) [] h k = cc
lt_bytes_trans (a ∷ x) (b ∷ y) (c ∷ z) h k = ground (arith, lt_bytes_trans x y z)

-- Assignments in the order that `validateRolePolicy` asks for, behind an identifier.
abbrev pub is_sorted : Option Bytes → List RoleAssignment → Bool
is_sorted before [] = true
is_sorted before (a ∷ rest) =
    not (is_out_of_order before a.agent_id) && is_sorted (some a.agent_id) rest

count_roles-sorted :
    (before : Option Bytes) (n m : ℕ × ℕ) (l : List RoleAssignment)
    → count_roles before n l ≡ ok m
    → is_sorted before l ≡ true
unfolding count_roles
count_roles-sorted before n m [] h = refl
count_roles-sorted before n m (a ∷ rest) h =
    let (_, e1, k1) =
      >>=-eq-ok
        (refuse_if (not (is_agent a.agent_id) || is_out_of_order before a.agent_id) bad_order) _
        h in
    let (next, e2, k2) = >>=-eq-ok (counted a.role n) _ k1 in
    let fine = refuse_if-ok _ bad_order e1 in
    let later = count_roles-sorted (some a.agent_id) next m rest k2 in ground arith

-- Behind an identifier that is not below, every assignment reaches it.
reaches-all :
    (id before : Bytes) (l : List RoleAssignment) (i : ℕ)
    → is_sorted (some before) l ≡ true
    → lt_bytes before id ≡ false
    → reaches id l i ≡ true
unfolding reaches
reaches-all id before [] i s h = refl
reaches-all id before (a ∷ rest) zero s h = ground (arith, lt_bytes_trans before a.agent_id id)
reaches-all id before (a ∷ rest) (suc i) s h =
    ground (arith, lt_bytes_trans before a.agent_id id, reaches-all id a.agent_id rest i)

reaches-beyond :
    (id : Bytes) (l : List RoleAssignment) (i : ℕ) → length l ≤ i → reaches id l i ≡ true
unfolding reaches
reaches-beyond id [] i le = refl
reaches-beyond id (a ∷ rest) zero le = absurd (omega arith)
reaches-beyond id (a ∷ rest) (suc i) le = reaches-beyond id rest i (omega arith)

reaches_mono :
    (id : Bytes) (before : Option Bytes) (l : List RoleAssignment) (i j : ℕ)
    → is_sorted before l ≡ true
    → i ≤ j
    → reaches id l i ≡ true
    → reaches id l j ≡ true
unfolding reaches
reaches_mono id before [] i j s le h = refl
reaches_mono id before (a ∷ rest) zero zero s le h = h
reaches_mono id before (a ∷ rest) zero (suc j) s le h =
    ground (arith, reaches-all id a.agent_id rest j)
reaches_mono id before (a ∷ rest) (suc i) zero s le h = absurd (omega arith)
reaches_mono id before (a ∷ rest) (suc i) (suc j) s le h =
    ground (arith, reaches_mono id (some a.agent_id) rest i j)

-- Where a test begins to be true, if it stays true.
abbrev IsStart : (ℕ → Bool) → ℕ → Type 0
IsStart f n = ((i : ℕ) → i < n → f i ≡ false) × ((i : ℕ) → n ≤ i → f i ≡ true)

search_step :
    (rounds : ℕ) (f : ℕ → Bool) (lo hi : ℕ)
    → ltb lo hi ≡ true
    → search_loop (suc rounds) f lo hi ≡ (
        if f ((lo + hi) / 2)
        then search_loop rounds f lo ((lo + hi) / 2)
        else search_loop rounds f ((lo + hi) / 2 + 1) hi)
unfolding search_loop
search_step rounds f lo hi e = ground (arith)

-- A binary search over a test that stays true ends where it begins to be true.
search_loop-IsStart :
    (rounds : ℕ) (f : ℕ → Bool) (lo hi : ℕ)
    → ((i j : ℕ) → i ≤ j → f i ≡ true → f j ≡ true)
    → lo ≤ hi
    → hi - lo ≤ rounds
    → ((i : ℕ) → i < lo → f i ≡ false)
    → ((i : ℕ) → hi ≤ i → f i ≡ true)
    → IsStart f (search_loop rounds f lo hi)
unfolding search_loop
search_loop-IsStart zero f lo hi mono le enough below above = (below, λ i q. above i (omega arith))
search_loop-IsStart (suc rounds) f lo hi mono le enough below above =
    elim (Bool-cases (ltb lo hi)) [
      | inr e ↦ rw (e, search_loop) (below, λ i q. above i (ground arith))
      | inl e ↦
          let mid : ℕ = (lo + hi) / 2 in
          let inside : lo < hi = ground arith in
          subst (IsStart f) (sym (search_step rounds f lo hi e)) (elim (Bool-cases (f mid)) [
            | inl t ↦ rw t (
                search_loop-IsStart rounds f lo mid mono (omega arith) (omega arith) below
                  (λ i q. mono mid i q t))
            | inr t ↦ rw t (
                search_loop-IsStart rounds f (mid + 1) hi mono (omega arith) (omega arith)
                  (λ i q. not_yet i mid (omega arith) t) above)
          ])
    ]
  where
    not_yet : (i j : ℕ) → i ≤ j → f j ≡ false → f i ≡ false
    not_yet i j le e = elim (Bool-cases (f i)) [
      | inl t ↦ let later = mono i j le t in cc
      | inr t ↦ t
    ]

-- The role of the first assignment that names an identifier.
unfoldable pub listed_role : Bytes → List RoleAssignment → Role
listed_role id [] = other_role []
listed_role id (a ∷ rest) =
    let later = listed_role id rest in if eq_bytes a.agent_id id then a.role else later

listed_role-above :
    (id before : Bytes) (l : List RoleAssignment)
    → is_sorted (some before) l ≡ true
    → lt_bytes before id ≡ false
    → listed_role id l ≡ other_role []
unfolding listed_role
listed_role-above id before [] s h = refl
listed_role-above id before (a ∷ rest) s h = elim (Bool-cases (eq_bytes a.agent_id id)) [
  | inl e ↦ absurd (outside e)
  | inr e ↦ rw e (
      listed_role-above id a.agent_id rest (ground arith)
        (ground (arith, lt_bytes_trans before a.agent_id id)))
]
  where
    after : lt_bytes before a.agent_id ≡ true
    after = ground arith

    outside : eq_bytes a.agent_id id ≡ true → ⊥
    outside e =
        let below = subst (λ z. lt_bytes before z ≡ true) (eq_bytes→eq a.agent_id id e) after in cc

role_at-listed :
    (id : Bytes) (before : Option Bytes) (l : List RoleAssignment) (n : ℕ)
    → is_sorted before l ≡ true
    → IsStart (reaches id l) n
    → role_at id l n ≡ listed_role id l
unfolding role_at listed_role reaches
role_at-listed id before [] n s start = refl
role_at-listed id before (a ∷ rest) zero s start =
    let reached = start.1 0 (omega arith) in ground (arith, listed_role-above id a.agent_id rest)
role_at-listed id before (a ∷ rest) (suc n) s start =
    let passed = start.0 0 (omega arith) in
    ground (
      arith,
      ne a.agent_id,
      role_at-listed id (some a.agent_id) rest n (ground arith)
          ((λ i q. start.0 (suc i) (omega arith)), (λ i q. start.1 (suc i) (omega arith))),
    )
  where
    ne : (x : Bytes) → lt_bytes x id ≡ true → eq_bytes x id ≡ false
    ne x h = elim (Bool-cases (eq_bytes x id)) [
      | inl e ↦
          let same = subst (λ z. lt_bytes z id ≡ true) (eq_bytes→eq x id e) h in
          cc (lt_bytes_irrefl id)
      | inr e ↦ e
    ]

validate-sorted :
    (p : RolePolicy) (signed : Bool)
    → validate_role_policy p signed ≡ ok tt
    → is_sorted none p.assignments ≡ true
unfolding validate_role_policy
validate-sorted p signed valid =
    let (_, e1, k1) =
      >>=-eq-ok
        (refuse_if
          (not (is_room p.room_id)
            || p.membership_epoch == 0
            || not (valid_digest p.membership_digest)
            || p.revision == 0
            || not (is_authority p.authority)
            || is_bad_window p.issued_at_unix p.expires_at_unix
            || length p.assignments == 0
            || ltb 20 (length p.assignments))
          invalid)
        _ valid in
    let (_, e2, k2) = >>=-eq-ok (authority_network p.network) _ k1 in
    let (n, e3, k3) = >>=-eq-ok (count_roles none (0, 0) p.assignments) _ k2 in
    count_roles-sorted none (0, 0) n p.assignments e3

-- The binary search of `RoleOf` gives the role that a valid policy lists.
pub role_of-listed_role :
    (p : RolePolicy) (signed : Bool) (id : Bytes)
    → validate_role_policy p signed ≡ ok tt
    → role_of p id ≡ listed_role id p.assignments
unfolding role_of
role_of-listed_role p signed id valid =
    let s : is_sorted none p.assignments ≡ true = validate-sorted p signed valid in
    role_at-listed id none p.assignments _ s (
      search_loop-IsStart (length p.assignments) (reaches id p.assignments) 0 (length p.assignments)
        (λ i j. reaches_mono id none p.assignments i j s) (omega arith) (omega arith)
        (λ i q. absurd (omega arith)) (reaches-beyond id p.assignments))

module _ ⦃h : Hash⦄ where
  -- What a policy allows, it allows to a member, and nothing of it outlives a change of the room.
  pub allows_once :
      (p : RolePolicy) (m next : Membership) (c : Change) (id other : Bytes)
      (action action' : Action)
      → allows p m id action ≡ true
      → change c m ≡ ok next
      → (contains m id ≡ true) × (allows p next other action' ≡ false)
  unfolding allows
  allows_once p m next c id other action action' allowed changed =
      let (_, later, _, _) = change-Follows c m next changed in ground arith
