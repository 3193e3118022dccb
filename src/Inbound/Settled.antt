-- ===== src/Inbound/Settled.antt =====
-- The results that may still come for a file, through the transitions of sessions and through Prune.
use tos_messenger.Base.{
  ℕ, ◌+◌, ◌≤◌, ◌≡◌, refl, ap, ◌∙◌, Bool, true, false, ◌&&◌, not, Option, none, some, List, [], ◌∷◌,
  is_some, if◌then◌else◌, Bytes, eq_bytes, eq_bytes_refl, Result, ok, err, Bool-cases, inl, inr,
  >>=-eq-ok, require, ok-injective, arith, get, get-set,
}
use tos_messenger.Canon.Encode.{Hash}
use tos_messenger.Delivery.Record.{Base64, file_name}
use tos_messenger.Delivery.Outbox.{Write, written, lost, unsynced}
use tos_messenger.Prune.{PruneError, Removal, SweptFrom-sweep}
use tos_messenger.Inbound.Record.{Entry, EventRecord, InboundError, conflict}
use tos_messenger.Inbound.Queue.{
  Env, Inbox, Stored, commit_record, read_stored, read_record, write_record, fresh_record,
  made_fresh, accept_at, accept_checked, accept, accept_checks,
}
use tos_messenger.Inbound.Swept.{prunable, prune_from}
use tos_messenger.Inbound.Transition.{
  SessionAnswer, unanswered, moved_on, advanced, is_committed, finish_transition, conflicting,
  write_transition, settle_inbound, commit_checked, Recovery, passes, stops, writes, resolved,
  recovery, after_recovery, recover_staged,
}
use tos_messenger.Inbound.Rank.{rank, work, work-commit}
use tos_messenger.Inbound.Work.{read_stored-ok, work-read, work-accept_checked}

-- What an operation answers with leaves no more to come than the file has.
abbrev IsThere : Bytes → Inbox × Result InboundError (Bool × EventRecord) → Type 0
IsThere name (o, err e) = Unit {0}
IsThere name (o, ok (fresh, r)) = rank r.application ≤ work (get name o)

IsThere-ok :
    (name : Bytes) (o : Inbox) (q : Result InboundError (Bool × EventRecord))
    → ((fresh : Bool) (r : EventRecord)
        → q ≡ ok (fresh, r)
        → rank r.application ≤ work (get name o))
    → IsThere name (o, q)
IsThere-ok name o (err e) all = tt
IsThere-ok name o (ok (fresh, r)) all = all fresh r refl

fst-conflicting :
    (kept : Bool) (c : Inbox × Result InboundError EventRecord) → (conflicting kept c).0 ≡ c.0
unfolding conflicting
fst-conflicting kept (o, err e) = refl
fst-conflicting true (o, ok r) = refl
fst-conflicting false (o, ok r) = refl

work-write_transition :
    (env : Env) (answer : SessionAnswer) (now : ℕ) (k name : Bytes) (r : EventRecord) (o : Inbox)
    → rank r.application ≤ work (get name o)
    → work (get k (write_transition env name (finish_transition answer now r) o).0) ≤ work (get k o)
unfolding write_transition finish_transition
work-write_transition env unanswered now k name r o le = omega arith
work-write_transition env moved_on now k name r o le =
    rw fst-conflicting (work-commit env k name _ o le)
work-write_transition env advanced now k name r o le =
    rw fst-conflicting (work-commit env k name _ o le)

work-settle_inbound :
    ⦃h : Hash⦄ ⦃base64 : Base64⦄ (env : Env) (answer : SessionAnswer) (now : ℕ) (k name : Bytes)
    (c : Inbox × Result InboundError (Bool × EventRecord))
    → IsThere name c
    → work (get k (settle_inbound env answer now name c).0) ≤ work (get k c.0)
unfolding settle_inbound
work-settle_inbound env answer now k name (o, err e) there = omega arith
work-settle_inbound env answer now k name (o, ok (fresh, r)) there =
    elim (Bool-cases (not fresh && is_committed r.crypto)) [
      | inl done ↦ rw done (omega arith)
      | inr open_still ↦ rw open_still (work-write_transition env answer now k name r o there)
    ]

module _ ⦃h : Hash⦄ ⦃base64 : Base64⦄ where
  IsThere-made_fresh :
      (w : Write) (name : Bytes) (r : EventRecord) (o : Inbox)
      → IsThere name (made_fresh (write_record w name r o))
  unfolding write_record
  IsThere-made_fresh written name r o = rw (get-set, eq_bytes_refl name) (omega arith)
  IsThere-made_fresh lost name r o = tt
  IsThere-made_fresh unsynced name r o = tt

  IsThere-accept_at :
      (env : Env) (name : Bytes) (e : Entry) (r : EventRecord) (f : Option Stored) (o : Inbox)
      → get name o ≡ f
      → IsThere name (accept_at env name e r f o)
  unfolding accept_at
  IsThere-accept_at env name e r none o there = IsThere-made_fresh (env.write r) name r o
  IsThere-accept_at env name e r (some file) o there = IsThere-ok name o _ λ fresh x made.
      let (existing, read, k1) = >>=-eq-ok (read_stored (some file)) _ made in
      let (_, _, k2) =
        >>=-eq-ok
          (require
            (eq_bytes existing.sender_endpoint_id e.sender_endpoint_id
              && eq_bytes existing.conversation_id e.conversation_id
              && eq_bytes existing.payload_digest r.payload_digest)
            conflict)
          _ k1 in
      let same = ap (λ (p : Bool × EventRecord). rank p.1.application) (ok-injective k2) in
      let stands = ap work (there ∙ read_stored-ok (some file) existing read) in omega arith

  IsThere-accept_checked :
      (env : Env) (e : Entry) (q : Result InboundError (Unit {0})) (o : Inbox)
      → IsThere (file_name e.event_id) (accept_checked env e q o)
  unfolding accept_checked
  IsThere-accept_checked env e (err x) o = tt
  IsThere-accept_checked env e (ok u) o =
      IsThere-accept_at env (file_name e.event_id) e (fresh_record e) _ o refl

  pub work-commit_checked :
      (env : Env) (answer : SessionAnswer) (k : Bytes) (e : Entry) (q : Result InboundError ℕ)
      (o : Inbox)
      → work (get k (commit_checked env answer e q o).0) ≤ work (get k o)
  unfolding commit_checked accept
  work-commit_checked env answer k e (err x) o = omega arith
  work-commit_checked env answer k e (ok now) o =
      let accepted = work-accept_checked env k e (accept_checks env e o) o in
      let settled =
        work-settle_inbound env answer now k (file_name e.event_id) _
          (IsThere-accept_checked env e (accept_checks env e o) o) in
      omega arith

  recovery-rank :
      (answer : SessionAnswer) (q : Result InboundError EventRecord) (x : EventRecord)
      → recovery answer q ≡ writes x
      → (r : EventRecord) × (q ≡ ok r) × (rank x.application ≡ rank r.application)
  unfolding recovery resolved
  recovery-rank answer (err e) x made = cc
  recovery-rank unanswered (ok r) x made = (r, refl, ground arith)
  recovery-rank moved_on (ok r) x made = (r, refl, ground arith)
  recovery-rank advanced (ok r) x made = (r, refl, ground arith)

  pub work-recover_staged :
      (env : Env) (answers : Bytes → SessionAnswer) (k : Bytes) (ns : List Bytes) (o : Inbox)
      → work (get k (recover_staged env answers ns o).0) ≤ work (get k o)
  unfolding recover_staged
  work-recover_staged env answers k [] o = omega arith
  work-recover_staged env answers k (name ∷ ns) o =
      at (recovery (answers name) (read_record name o)) refl
        (λ o'. work-recover_staged env answers k ns o')
    where
      continued :
          (c : Inbox × Result InboundError EventRecord)
          → work (get k c.0) ≤ work (get k o)
          → ((o' : Inbox) → work (get k (recover_staged env answers ns o').0) ≤ work (get k o'))
          → work (get k (after_recovery c (λ o'. recover_staged env answers ns o')).0)
            ≤ work (get k o)
      continued (o', ok x) le rest = let later = rest o' in unfold after_recovery in omega arith
      continued (o', err x) le rest = unfold after_recovery in le

      at :
          (a : Recovery)
          → recovery (answers name) (read_record name o) ≡ a
          → ((o' : Inbox) → work (get k (recover_staged env answers ns o').0) ≤ work (get k o'))
          → work (get k (recover_staged env answers (name ∷ ns) o).0) ≤ work (get k o)
      at passes e rest = rw (e, recover_staged) (rest o)
      at stops e rest = rw (e, recover_staged) (omega arith)
      at (writes x) e rest =
          let (r, read, same) = recovery-rank (answers name) (read_record name o) x e in
          let before = work-read name o r read in
          rw (e, recover_staged)
            (continued (commit_record env name (ok x) o) (work-commit env k name x o (omega arith))
              rest)

  present_of_prunable :
      (now horizon : ℕ) (f : Option Stored)
      → prunable now horizon (read_stored f) ≡ some true
      → is_some f ≡ true
  unfolding read_stored
  present_of_prunable now horizon none e = cc
  present_of_prunable now horizon (some file) e = refl

  -- A removal is the only thing that makes another result possible, and it counts as one.
  pub prune_from-work :
      (r : Removal) (k : Bytes) (q : Result PruneError (ℕ × ℕ)) (o : Inbox)
      → 0 + work (get k (prune_from r q o).0)
        ≤ (if is_some (get k o) && not (is_some (get k (prune_from r q o).0)) then 1 else 0)
          + work (get k o)
  unfolding prune_from
  prune_from-work r k (err x) o = omega arith
  prune_from-work r k (ok a) o =
      elim (SweptFrom-sweep (λ f. prunable a.0 a.1 (read_stored f)) r k o) [
        | inl same ↦ rw same (omega arith)
        | inr (gone, over) ↦ rw (gone, present_of_prunable a.0 a.1 (get k o) over) (omega arith)
      ]
