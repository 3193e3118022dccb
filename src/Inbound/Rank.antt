-- ===== src/Inbound/Rank.antt =====
-- How many results may still come for an event, and what one change of its record does to that.
use tos_messenger.Base.{
  ℕ, ◌+◌, ◌≤◌, ◌≡◌, refl, sym, ap, ◌∙◌, subst, true, Option, none, some, ltb, Bytes, eq_bytes,
  eq_bytes→eq, eq_bytes_refl, Result, ok, err, require, refuse_if, require-ok, ok-injective,
  >>=-eq-ok, Bool-cases, inl, inr, arith, get, get-set,
}
use tos_messenger.Fault.Codes.{Code}
use tos_messenger.Delivery.Outbox.{Write, written, lost, unsynced}
use tos_messenger.Inbound.Record.{
  other_application, EventRecord, InboundError, ApplicationState, queued, claimed, applied,
  rejected, is_claimed, is_undecided, not_pending, lease_mismatch, read_too_early,
}
use tos_messenger.Inbound.Stored.{may_claim, finish_event, finished, read_event, decide_event}
use tos_messenger.Inbound.Queue.{
  Env, Inbox, Stored, readable, unreadable, write_record, commit_record,
}

-- Whether a runtime may still report on an event.
abbrev pub rank : ApplicationState → ℕ
rank queued = 1
rank claimed = 1
rank _ = 0

-- The results that may still come for a file.
abbrev pub work : Option Stored → ℕ
work none = 1
work (some unreadable) = 0
work (some (readable r)) = rank r.application

pub rank_bounds : (s : ApplicationState) → rank s ≤ 1
rank_bounds queued = omega arith
rank_bounds claimed = omega arith
rank_bounds applied = omega arith
rank_bounds rejected = omega arith
rank_bounds (other_application x) = omega arith

pub work_bounds : (f : Option Stored) → work f ≤ 1
work_bounds none = omega arith
work_bounds (some unreadable) = omega arith
work_bounds (some (readable r)) = rank_bounds r.application

pub nothing_more : (a b : ℕ) → a ≤ b → 0 + a ≤ 0 + b
nothing_more a b le = omega arith

pub rank_claimed : (s : ApplicationState) → is_claimed s ≡ true → rank s ≡ 1
rank_claimed claimed h = refl
rank_claimed _ h = cc

pub may_claim-rank :
    (now expires : ℕ) (s : ApplicationState) {u : Unit {0}}
    → may_claim now expires s ≡ ok u
    → rank s ≡ 1
may_claim-rank now expires queued h = refl
may_claim-rank now expires claimed h = refl
may_claim-rank now expires applied h = cc
may_claim-rank now expires rejected h = cc
may_claim-rank now expires (other_application x) h = cc

-- A change that leaves no more to come.
abbrev pub Lessens : {A : Type 0} → (A → EventRecord → Result InboundError EventRecord) → Type 0
Lessens {A} change =
    (a : A) (r x : EventRecord) → change a r ≡ ok x → rank x.application ≤ rank r.application

pub finish_event-rank :
    (lease : Bytes) (code : Option (Option Code)) (now : ℕ) (r x : EventRecord)
    → finish_event lease code now r ≡ ok x
    → (rank r.application ≡ 1) × (rank x.application ≡ 0)
unfolding finish_event
finish_event-rank lease code now r x h =
    let (_, e1, k1) = >>=-eq-ok (require (is_claimed r.application) not_pending) _ h in
    let (_, e2, k2) = >>=-eq-ok (require (eq_bytes r.lease_id lease) lease_mismatch) _ k1 in
    (
      rank_claimed r.application (require-ok _ not_pending e1),
      ap (λ z. rank z.application) (sym (ok-injective k2)) ∙ ended code,
    )
  where
    ended : (c : Option (Option Code)) → rank (finished c now r).application ≡ 0
    ended none = refl
    ended (some c) = refl

pub decide_event-Lessens : (code : Option (Option Code)) → Lessens (decide_event code)
unfolding decide_event
decide_event-Lessens none now r x h =
    let (_, e1, k1) = >>=-eq-ok (require (is_undecided r.admission) not_pending) _ h in
    let same = ap (λ z. rank z.application) (ok-injective k1) in omega arith
decide_event-Lessens (some code) now r x h =
    let (_, e1, k1) = >>=-eq-ok (require (is_undecided r.admission) not_pending) _ h in
    let same = ap (λ z. rank z.application) (ok-injective k1) in omega arith

pub read_event-Lessens : Lessens read_event
unfolding read_event
read_event-Lessens now r x h =
    let (_, e1, k1) = >>=-eq-ok (refuse_if (ltb now r.received_at_unix) read_too_early) _ h in
    let same = ap (λ z. rank z.application) (ok-injective k1) in omega arith

pub work-write :
    (w : Write) (k name : Bytes) (r : EventRecord) (o : Inbox)
    → rank r.application ≤ work (get name o)
    → work (get k (write_record w name r o).0) ≤ work (get k o)
unfolding write_record
work-write lost k name r o le = omega arith
work-write written k name r o le = elim (Bool-cases (eq_bytes name k)) [
  | inr other ↦ rw (get-set, other) (omega arith)
  | inl same ↦
      rw (get-set, same)
        (subst (λ z. rank r.application ≤ work (get z o)) (eq_bytes→eq name k same) le)
]
work-write unsynced k name r o le = elim (Bool-cases (eq_bytes name k)) [
  | inr other ↦ rw (get-set, other) (omega arith)
  | inl same ↦
      rw (get-set, same)
        (subst (λ z. rank r.application ≤ work (get z o)) (eq_bytes→eq name k same) le)
]

pub work-commit :
    (env : Env) (k name : Bytes) (r : EventRecord) (o : Inbox)
    → rank r.application ≤ work (get name o)
    → work (get k (commit_record env name (ok r) o).0) ≤ work (get k o)
unfolding commit_record
work-commit env k name r o le = elim (Bool-cases (env.fits r)) [
  | inl e ↦ rw e (work-write (env.write r) k name r o le)
  | inr e ↦ rw e (omega arith)
]

abbrev pub counted_ok : {A : Type 0} → Result InboundError A → ℕ
counted_ok (ok a) = 1
counted_ok (err e) = 0

pub write-once :
    (w : Write) (name : Bytes) (r : EventRecord) (o : Inbox)
    → rank r.application ≡ 0
    → work (get name o) ≡ 1
    → counted_ok (write_record w name r o).1 + work (get name (write_record w name r o).0)
      ≤ work (get name o)
unfolding write_record
write-once written name r o ended open_before = rw (get-set, eq_bytes_refl name) (omega arith)
write-once lost name r o ended open_before = omega arith
write-once unsynced name r o ended open_before = rw (get-set, eq_bytes_refl name) (omega arith)

pub commit-once :
    (env : Env) (name : Bytes) (r : EventRecord) (o : Inbox)
    → rank r.application ≡ 0
    → work (get name o) ≡ 1
    → counted_ok (commit_record env name (ok r) o).1
        + work (get name (commit_record env name (ok r) o).0)
      ≤ work (get name o)
unfolding commit_record
commit-once env name r o ended open_before = elim (Bool-cases (env.fits r)) [
  | inl e ↦ rw e (write-once (env.write r) name r o ended open_before)
  | inr e ↦ rw e (omega arith)
]
