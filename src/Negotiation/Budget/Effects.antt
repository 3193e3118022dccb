-- ===== src/Negotiation/Budget/Effects.antt =====
-- What each budget operation does to the holds, and runs of operations by several negotiations.
use tos_messenger.Base.{
  is_atomic, subst, eq_bytes→eq, ◌+◌, ◌≤◌, ◌≡◌, refl, sym, false, none, some, List, [], ◌∷◌,
  if◌then◌else◌, Bytes, eq_bytes, Result, ok, err, arith, >>=-eq-ok, inl, inr, Option-cases,
}
use tos_messenger.Negotiation.Amount.{atomic_value}
use tos_messenger.Negotiation.Errors.{NegotiationError}
use tos_messenger.Negotiation.Money.{Money, zero_money, validate_money}
use tos_messenger.Negotiation.Exact.{IsValid, amount}
use tos_messenger.Negotiation.Budget.{
  no_reservation, Holds, Budget, Ledger, Change, lookup, put, delete, reserve, reserve_checked,
  settle_reserve, release, released, commit_hold, committed_hold, open_budget, opened, spend,
  record_budget,
}
use tos_messenger.Negotiation.Budget.Sums.{lookup-put, lookup-delete_ne, total_held}
use tos_messenger.Negotiation.Budget.Invariant.{
  IsSound, reserve-IsSound, release-IsSound, commit_hold-IsSound, spend-ok,
}

-- An accepted reservation replaces the negotiation's own hold, leaves every other one, and spends
-- nothing.
pub reserve_accepted :
    (l : Ledger) (id : Bytes) (v : Money) (b : Budget)
    → (reserve l id v b).1 ≡ ok tt
    → ((reserve l id v b).0.spent ≡ b.spent)
      × ((j : Bytes)
          → lookup j (reserve l id v b).0.reserved
            ≡ (if eq_bytes id j then some v else lookup j b.reserved))
unfolding reserve reserve_checked settle_reserve
reserve_accepted l id v b h = (ground arith, λ j. ground (arith, lookup-put id v j b.reserved))

-- A hold that is taken out and put back under its key.
lookup-put-delete :
    (id j : Bytes) (v : Money) (m : Holds)
    → lookup id m ≡ some v
    → lookup j (put id v (delete id m)) ≡ lookup j m
lookup-put-delete id j v m e =
    ground (arith, lookup-put id v j (delete id m), lookup-delete_ne id j m, eq_bytes→eq id j)

-- What a change that spends the hold of `id`, or fails, does.
abbrev SpendsHold : Bytes → Budget → Change → Type 0
SpendsHold id b c =
    (c.1 ≡ ok tt
      → (v : Money) × (lookup id b.reserved ≡ some v)
        × (amount c.0.spent ≡ amount b.spent + amount v)
        × ((j : Bytes) → eq_bytes id j ≡ false → lookup j c.0.reserved ≡ lookup j b.reserved))
    × ((e : NegotiationError)
        → c.1 ≡ err e
        → (c.0.spent ≡ b.spent) × ((j : Bytes) → lookup j c.0.reserved ≡ lookup j b.reserved))

spent_hold :
    (l : Ledger) (id : Bytes) (v sum : Money) (b : Budget)
    → lookup id b.reserved ≡ some v
    → amount sum ≡ amount b.spent + amount v
    → (r : Result NegotiationError (Unit {0}))
    → let new = record b { spent = sum; reserved = delete id b.reserved } in
      SpendsHold id b
        (released (record new { spent = b.spent; reserved = put id v new.reserved }) new r)
unfolding released
spent_hold l id v sum b e exact (ok u) =
    ((λ _. (v, e, exact, λ j ne. lookup-delete_ne id j b.reserved ne)), (λ x h. cc))
spent_hold l id v sum b e exact (err y) =
    ((λ h. cc), (λ x h. (refl, λ j. lookup-put-delete id j v b.reserved e)))

committed_hold-SpendsHold :
    (l : Ledger) (id : Bytes) (v : Money) (b : Budget)
    → lookup id b.reserved ≡ some v
    → (r : Result NegotiationError Money) → spend v b ≡ r
    → SpendsHold id b (committed_hold l id v b r)
unfolding committed_hold
committed_hold-SpendsHold l id v b e (err x) h = ((λ k. cc), (λ y k. (refl, λ j. refl)))
committed_hold-SpendsHold l id v b e (ok sum) h = spent_hold l id v sum b e (spend-ok v b sum h).2 _

commit_hold_missing :
    (l : Ledger) (id : Bytes) (b : Budget)
    → lookup id b.reserved ≡ none
    → commit_hold l id b ≡ (b, err no_reservation)
unfolding commit_hold
commit_hold_missing l id b e = rw (e, commit_hold) refl

commit_hold_present :
    (l : Ledger) (id : Bytes) (v : Money) (b : Budget)
    → lookup id b.reserved ≡ some v
    → commit_hold l id b ≡ committed_hold l id v b (spend v b)
unfolding commit_hold
commit_hold_present l id v b e = rw (e, commit_hold) refl

commit_hold-SpendsHold :
    (l : Ledger) (id : Bytes) (b : Budget) → SpendsHold id b (commit_hold l id b)
commit_hold-SpendsHold l id b = elim (Option-cases (lookup id b.reserved)) [
  | inl e ↦ subst (SpendsHold id b) (sym (commit_hold_missing l id b e)) (missing b)
  | inr (v, e) ↦
      subst (SpendsHold id b) (sym (commit_hold_present l id v b e))
        (committed_hold-SpendsHold l id v b e _ refl)
]
  where
    missing : (b : Budget) → SpendsHold id b (b, err no_reservation)
    missing b = ((λ k. cc), (λ y k. (refl, λ j. refl)))

-- If `Commit` succeeds, there was a hold, the spent amount grows by exactly it, and the hold of
-- every other negotiation stays.
pub commit_hold_accepted :
    (l : Ledger) (id j : Bytes) (b : Budget)
    → (commit_hold l id b).1 ≡ ok tt
    → eq_bytes id j ≡ false
    → (v : Money) × (lookup id b.reserved ≡ some v)
      × (amount (commit_hold l id b).0.spent ≡ amount b.spent + amount v)
      × (lookup j (commit_hold l id b).0.reserved ≡ lookup j b.reserved)
commit_hold_accepted l id j b h ne =
    let (v, e, exact, others) = (commit_hold-SpendsHold l id b).0 h in (v, e, exact, others j ne)

-- If `Commit` fails, the spent amount and every hold are what they were.
pub commit_hold_refused :
    (l : Ledger) (id j : Bytes) (b : Budget) (e : NegotiationError)
    → (commit_hold l id b).1 ≡ err e
    → ((commit_hold l id b).0.spent ≡ b.spent)
      × (lookup j (commit_hold l id b).0.reserved ≡ lookup j b.reserved)
commit_hold_refused l id j b e h =
    let (spent, holds) = (commit_hold-SpendsHold l id b).1 e h in (spent, holds j)

-- The operations that the negotiations of one owner call, each under the ledger of its moment.
pub data Operation : Type 0 where
  reserves : Bytes → Money → Operation
  releases commits : Bytes → Operation

unfoldable pub apply : Ledger → Operation → Budget → Budget
apply l (reserves id v) b = (reserve l id v b).0
apply l (releases id) b = (release l id b).0
apply l (commits id) b = (commit_hold l id b).0

unfoldable pub apply_all : List (Ledger × Operation) → Budget → Budget
apply_all [] b = b
apply_all ((l, o) ∷ r) b = apply_all r (apply l o b)

apply-IsSound : (l : Ledger) (o : Operation) (b : Budget) → IsSound b → IsSound (apply l o b)
unfolding apply
apply-IsSound l (reserves id v) b s = reserve-IsSound l id v b s
apply-IsSound l (releases id) b s = release-IsSound l id b s
apply-IsSound l (commits id) b s = commit_hold-IsSound l id b s

apply_all-IsSound :
    (r : List (Ledger × Operation)) (b : Budget) → IsSound b → IsSound (apply_all r b)
unfolding apply_all
apply_all-IsSound [] b s = s
apply_all-IsSound ((l, o) ∷ r) b s = apply_all-IsSound r (apply l o b) (apply-IsSound l o b s)

zero_money-IsValid : (m : Money) → IsValid m → IsValid (zero_money m) × (amount (zero_money m) ≡ 0)
unfolding validate_money zero_money is_atomic atomic_value
zero_money-IsValid m h = (ground arith, refl)

open_fresh-IsSound :
    (total : Money) (l : Ledger) (b : Budget)
    → l.load ≡ ok none
    → open_budget total (some l) ≡ ok b
    → IsSound b
unfolding open_budget opened record_budget zero_money
open_fresh-IsSound total l b e h =
    let fresh : Budget = record { total = total; spent = zero_money total; reserved = [] } in
    let (u, valid, h1) = >>=-eq-ok (validate_money total) _ h in
    let (zero_valid, is_zero) = zero_money-IsValid total valid in
    let same : fresh ≡ b = ground arith in
    subst IsSound same (record {
      total_valid = valid;
      spent_is = (zero_valid, zero_asset total);
      holds_are = tt;
      within = omega (arith, is_zero);
      few = omega arith;
    })
  where
    zero_asset : (m : Money) → (zero_money m).asset ≡ m.asset
    zero_asset m = refl

-- However the operations of any number of negotiations follow one another on a budget that was
-- opened afresh, and whichever of their writes fail: what is spent and what is held is together at
-- most the total.
pub budget_never_exceeded :
    (total : Money) (l : Ledger) (b : Budget) (r : List (Ledger × Operation))
    → l.load ≡ ok none
    → open_budget total (some l) ≡ ok b
    → amount (apply_all r b).spent + total_held (apply_all r b).reserved
      ≤ amount (apply_all r b).total
budget_never_exceeded total l b r e h =
    (apply_all-IsSound r b (open_fresh-IsSound total l b e h)).within
