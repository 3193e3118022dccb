-- ===== src/Negotiation/Budget/Invariant.antt =====
-- What holds of a budget between any two of its operations.
use tos_messenger.Base.{
  Result-cases, subst, ◌+◌, ◌≤◌, ◌≡◌, refl, sym, ◌∙◌, some, Bytes, Result, ok, err, arith, length,
  sort_by, >>=-eq-ok, suc, inl, inr, Option-cases,
}
use tos_messenger.Negotiation.Errors.{NegotiationError}
use tos_messenger.Negotiation.Money.{Money, at_most, add_money}
use tos_messenger.Negotiation.Exact.{IsValid, amount, at_most_lem, add_money_exact, same_asset→eq}
use tos_messenger.Negotiation.Budget.{
  Holds, Budget, Ledger, lookup, put, delete, committed, reserve_checks, reserve_input,
  reserve_checked, settle_reserve, reserve, release, commit_hold, restore, max_reservations, before,
  sum_holds, released, spend, committed_hold,
}
use tos_messenger.Negotiation.Budget.Sums.{
  length-delete_found, Is, AllOf, total_held, total_held-sort_by, sum_holds_exact, total_held-put,
  AllOf-put, length-put, delete-put, put-put, total_held-delete, AllOf-delete, Is-lookup,
}

-- The spent amount and every hold are valid amounts of the budget's asset, together they are at
-- most the total, and there are at most 256 holds.
pub record IsSound (b : Budget) : Type 0 where
  pub total_valid : IsValid b.total
  pub spent_is : Is b.total.asset b.spent
  pub holds_are : AllOf b.total.asset b.reserved
  pub within : amount b.spent + total_held b.reserved ≤ amount b.total
  pub few : length b.reserved ≤ max_reservations

-- A failed reservation puts the old hold back, or takes the new key out again.
pub restore-put :
    (id : Bytes) (v : Money) (b : Budget)
    → restore id (lookup id b.reserved) (record b { reserved = put id v b.reserved }) ≡ b
unfolding restore
restore-put id v b = elim (Option-cases (lookup id b.reserved)) [
  | inl e ↦ rw e λ i. record b { reserved = delete-put id v b.reserved e i }
  | inr (w, e) ↦ rw e λ i. record b { reserved = put-put id v w b.reserved e i }
]

-- A reservation that is refused, for whatever reason, leaves the budget as it was.
pub reserve_refused :
    (l : Ledger) (id : Bytes) (v : Money) (b : Budget) (e : NegotiationError)
    → (reserve l id v b).1 ≡ err e
    → (reserve l id v b).0 ≡ b
unfolding reserve reserve_checked settle_reserve
reserve_refused l id v b e h = ground (arith, restore-put id v b)

pub reserve_checks-within :
    (l : Ledger) (b : Budget)
    → IsValid b.spent
    → reserve_checks l b ≡ ok tt
    → amount b.spent + total_held b.reserved ≤ amount b.total
unfolding reserve_checks committed
reserve_checks-within l b valid h =
    let (sum, summed, h1) = >>=-eq-ok (sum_holds b.spent (sort_by before b.reserved)) _ h in
    let (within, compared, h2) = >>=-eq-ok (at_most sum b.total) _ h1 in
    let (sv, sa, exact) = sum_holds_exact (sort_by before b.reserved) b.spent sum valid summed in
    let (v, w, same, answer) = (at_most_lem sum b.total within).0 compared in
    let order = total_held-sort_by before b.reserved in ground arith

-- What an accepted input of `Reserve` says.
reserve_input-ok :
    (id : Bytes) (v : Money) (b : Budget)
    → reserve_input id v b ≡ ok tt
    → Is b.total.asset v
      × (length b.reserved ≤ max_reservations → length (put id v b.reserved) ≤ max_reservations)
unfolding reserve_input
reserve_input-ok id v b h =
    ground (arith, same_asset→eq v.asset b.total.asset, length-put id v b.reserved)

settle_reserve-IsSound :
    (l : Ledger) (id : Bytes) (v : Money) (b : Budget)
    → IsSound b
    → Is b.total.asset v
    → length (put id v b.reserved) ≤ max_reservations
    → (r : Result NegotiationError (Unit {0}))
    → reserve_checks l (record b { reserved = put id v b.reserved }) ≡ r
    → IsSound
        (settle_reserve id (lookup id b.reserved) (record b { reserved = put id v b.reserved }) r).0
unfolding settle_reserve
settle_reserve-IsSound l id v b s is_v short (ok u) e = record {
  total_valid = s.total_valid;
  spent_is = s.spent_is;
  holds_are = AllOf-put id v b.total.asset b.reserved is_v s.holds_are;
  within = reserve_checks-within l (record b { reserved = put id v b.reserved }) s.spent_is.0 e;
  few = short;
}
settle_reserve-IsSound l id v b s is_v short (err x) e = subst IsSound (sym (restore-put id v b)) s

-- `Reserve` keeps the budget sound.
pub reserve-IsSound :
    (l : Ledger) (id : Bytes) (v : Money) (b : Budget) → IsSound b → IsSound (reserve l id v b).0
unfolding reserve reserve_checked
reserve-IsSound l id v b s = elim (Result-cases (reserve_input id v b)) [
  | inl (u, e) ↦
      let (is_v, short) = reserve_input-ok id v b e in
      rw e (settle_reserve-IsSound l id v b s is_v (short s.few) _ refl)
  | inr (x, e) ↦ rw e s
]

taken_out :
    (id : Bytes) (v : Money) (m : Holds)
    → lookup id m ≡ some v
    → (total_held (delete id m) + amount v ≡ total_held m) × (suc (length (delete id m)) ≡ length m)
taken_out id v m e =
    let sums : total_held (delete id m) + amount v ≡ total_held m =
      rw e at (total_held-delete id m) in
    (sums, length-delete_found id v m e)

-- A hold that is taken out, with what it stood for, and put back.
removed-IsSound :
    (id : Bytes) (v : Money) (b : Budget)
    → IsSound b
    → lookup id b.reserved ≡ some v
    → IsSound (record b { reserved = delete id b.reserved })
      × IsSound (record b { reserved = put id v (delete id b.reserved) })
removed-IsSound id v b s e =
    let is_v = Is-lookup id b.total.asset v b.reserved s.holds_are e in
    let rest = AllOf-delete id b.total.asset b.reserved s.holds_are in
    let taken = taken_out id v b.reserved e in
    (
      record {
        total_valid = s.total_valid;
        spent_is = s.spent_is;
        holds_are = rest;
        within = omega (arith, s.within, taken);
        few = omega (arith, s.few, taken);
      },
      record {
        total_valid = s.total_valid;
        spent_is = s.spent_is;
        holds_are = AllOf-put id v b.total.asset (delete id b.reserved) is_v rest;
        within = omega (arith, s.within, taken, total_held-put id v (delete id b.reserved));
        few = ground (arith, s.few, taken, length-put id v (delete id b.reserved));
      },
    )

released-IsSound :
    (old new : Budget) (r : Result NegotiationError (Unit {0}))
    → IsSound old
    → IsSound new
    → IsSound (released old new r).0
unfolding released
released-IsSound old new (ok u) p q = q
released-IsSound old new (err e) p q = p

-- `Release` keeps the budget sound.
pub release-IsSound :
    (l : Ledger) (id : Bytes) (b : Budget) → IsSound b → IsSound (release l id b).0
unfolding release
release-IsSound l id b s = elim (Option-cases (lookup id b.reserved)) [
  | inl e ↦ rw (e, release) s
  | inr (v, e) ↦
      let (new, old) = removed-IsSound id v b s e in
      rw (e, release) (released-IsSound _ _ _ old new)
]

pub spend-ok :
    (v : Money) (b : Budget) (sum : Money)
    → spend v b ≡ ok sum
    → IsValid sum
      × (sum.asset ≡ b.spent.asset)
      × (amount sum ≡ amount b.spent + amount v)
      × (amount sum ≤ amount b.total)
unfolding spend
spend-ok v b sum h =
    let (r, added, h1) = >>=-eq-ok (add_money b.spent v) _ h in
    let (valid, asset, same, exact) = add_money_exact b.spent v r added in
    let (within, compared, h2) = >>=-eq-ok (at_most r b.total) _ h1 in
    let (_, _, _, answer) = (at_most_lem r b.total within).0 compared in
    let e : r ≡ sum = ground arith in rw (← e) (valid, asset, exact, ground arith)

committed_hold-IsSound :
    (l : Ledger) (id : Bytes) (v : Money) (b : Budget)
    → IsSound b
    → lookup id b.reserved ≡ some v
    → (r : Result NegotiationError Money) → spend v b ≡ r
    → IsSound (committed_hold l id v b r).0
unfolding committed_hold
committed_hold-IsSound l id v b s e (err x) h = s
committed_hold-IsSound l id v b s e (ok sum) h =
    let (new, old) = removed-IsSound id v b s e in
    let (valid, asset, exact, below) = spend-ok v b sum h in
    let taken = taken_out id v b.reserved e in
    released-IsSound _ _ _ old (record {
      total_valid = s.total_valid;
      spent_is = (valid, asset ∙ s.spent_is.1);
      holds_are = new.holds_are;
      within = omega (arith, s.within, taken);
      few = new.few;
    })

-- `Commit` keeps the budget sound.
pub commit_hold-IsSound :
    (l : Ledger) (id : Bytes) (b : Budget) → IsSound b → IsSound (commit_hold l id b).0
unfolding commit_hold
commit_hold-IsSound l id b s = elim (Option-cases (lookup id b.reserved)) [
  | inl e ↦ rw (e, commit_hold) s
  | inr (v, e) ↦ rw (e, commit_hold) (committed_hold-IsSound l id v b s e _ refl)
]
