-- ===== src/Inbound/Work.antt =====
-- The results that may still come for a file, through the operations on the inbound directory.
use tos_messenger.Base.{
  ◌==◌, ℕ, suc, ◌+◌, ◌≤◌, ◌≡◌, refl, sym, ap, ◌∙◌, subst, Option, none, some, List, [], ◌∷◌,
  if◌then◌else◌, Bytes, eq_bytes, eq_bytes→eq, Result, ok, err, is_ok, ok-injective, ◌>>=◌,
  >>=-eq-ok, Result-cases, Bool-cases, Option-cases, inl, inr, arith, get,
}
use tos_messenger.Canon.Encode.{Hash}
use tos_messenger.Fault.Codes.{Code}
use tos_messenger.Delivery.Record.{Base64, file_name}
use tos_messenger.Inbound.Record.{Entry, Transition, EventRecord, InboundError, validate_record}
use tos_messenger.Inbound.Stored.{finish_event, read_event, expired_event}
use tos_messenger.Inbound.Queue.{
  Env, Inbox, Stored, readable, unreadable, commit_record, read_stored, read_record, amend_record,
  fresh_record, with_transition, made_fresh, accept_at, accept_checked, marked, read_or_kept, Quota,
}
use tos_messenger.Inbound.Sweep.{
  expiring_event, expire_events, expire_events_from, after_commit, event_names,
}
use tos_messenger.Inbound.Rank.{
  rank, work, counted_ok, Lessens, finish_event-rank, read_event-Lessens, work-write, work-commit,
  commit-once,
}

module _ ⦃h : Hash⦄ ⦃base64 : Base64⦄ where
  pub read_stored-ok :
      (f : Option Stored) (r : EventRecord) → read_stored f ≡ ok r → f ≡ some (readable r)
  unfolding read_stored
  read_stored-ok none r k = cc
  read_stored-ok (some unreadable) r k = cc
  read_stored-ok (some (readable x)) r k =
      let (_, e, k1) = >>=-eq-ok (validate_record x) _ k in
      ap (λ y. some (readable y)) (ok-injective k1)

  -- What was read is there.
  pub work-read :
      (name : Bytes) (o : Inbox) (r : EventRecord)
      → read_record name o ≡ ok r
      → work (get name o) ≡ rank r.application
  unfolding read_record
  work-read name o r k = ap work (read_stored-ok (get name o) r k)

  pub work-amend :
      {A : Type 0} (env : Env) (k id : Bytes) (q : Result InboundError A)
      (change : A → EventRecord → Result InboundError EventRecord) (o : Inbox)
      → Lessens change
      → work (get k (amend_record env id q change o).0) ≤ work (get k o)
  unfolding amend_record
  work-amend env k id (err e) change o less = omega arith
  work-amend env k id (ok a) change o less =
      elim (Result-cases (do r ← read_record (file_name id) o; change a r)) [
        | inr (e, refused) ↦ rw refused (unfold commit_record in omega arith)
        | inl (x, made) ↦
            let (r, read, changed) = >>=-eq-ok (read_record (file_name id) o) (change a) made in
            let before = work-read (file_name id) o r read in
            let after = less a r x changed in
            rw made (work-commit env k (file_name id) x o (omega arith))
      ]

  finish-once :
      (env : Env) (id : Bytes) (q : Result InboundError ℕ) (lease : Bytes)
      (code : Option (Option Code)) (o : Inbox)
      → counted_ok (amend_record env id q (finish_event lease code) o).1
          + work (get (file_name id) (amend_record env id q (finish_event lease code) o).0)
        ≤ work (get (file_name id) o)
  unfolding amend_record
  finish-once env id (err e) lease code o = omega arith
  finish-once env id (ok now) lease code o =
      elim (Result-cases (do r ← read_record (file_name id) o; finish_event lease code now r)) [
        | inr (e, refused) ↦ rw refused (unfold commit_record in omega arith)
        | inl (x, made) ↦
            let (r, read, changed) =
              >>=-eq-ok (read_record (file_name id) o) (finish_event lease code now) made in
            let (open_before, ended) = finish_event-rank lease code now r x changed in
            rw made (
              commit-once env (file_name id) x o ended
                (work-read (file_name id) o r read ∙ open_before))
      ]

  finish-Lessens : (lease : Bytes) (code : Option (Option Code)) → Lessens (finish_event lease code)
  finish-Lessens lease code now r x made =
      let (open_before, ended) = finish_event-rank lease code now r x made in omega arith

  -- The same, counted for one file.
  pub finish-counted :
      (env : Env) (k id : Bytes) (q : Result InboundError ℕ) (lease : Bytes)
      (code : Option (Option Code)) (o : Inbox)
      → (if eq_bytes (file_name id) k
            then (if is_ok (amend_record env id q (finish_event lease code) o).1 then 1 else 0)
            else 0)
          + work (get k (amend_record env id q (finish_event lease code) o).0)
        ≤ work (get k o)
  finish-counted env k id q lease code o = elim (Bool-cases (eq_bytes (file_name id) k)) [
    | inr other ↦
        let le = work-amend env k id q (finish_event lease code) o (finish-Lessens lease code) in
        rw other (omega arith)
    | inl same ↦
        let p = eq_bytes→eq (file_name id) k same in
        rw (same, sym (as_count (amend_record env id q (finish_event lease code) o).1))
          (subst
            (λ z.
              counted_ok (amend_record env id q (finish_event lease code) o).1
                + work (get z (amend_record env id q (finish_event lease code) o).0)
              ≤ work (get z o))
            p (finish-once env id q lease code o))
  ]
    where
      as_count : (q : Result InboundError EventRecord) → counted_ok q ≡ (if is_ok q then 1 else 0)
      as_count (ok x) = refl
      as_count (err e) = refl

  pub with_transition-rank :
      (t : Option Transition) (at : ℕ) (r : EventRecord)
      → rank (with_transition t at r).application ≡ rank r.application
  unfolding with_transition
  with_transition-rank none at r = refl
  with_transition-rank (some t) at r = refl

  work-accept :
      (env : Env) (k name : Bytes) (e : Entry) (f : Option Stored) (o : Inbox)
      → get name o ≡ f
      → work (get k (accept_at env name e (fresh_record e) f o).0) ≤ work (get k o)
  unfolding accept_at
  work-accept env k name e (some file) o q = omega arith
  work-accept env k name e none o q =
      let fresh_rank : rank (fresh_record e).application ≡ 1 =
        unfold fresh_record in with_transition-rank e.transition e.received_at_unix _ in
      let absent = ap work q in
      rw fst-made (work-write (env.write (fresh_record e)) k name (fresh_record e) o (omega arith))
    where
      fst-made : (c : Inbox × Result InboundError EventRecord) → (made_fresh c).0 ≡ c.0
      fst-made (o, ok r) = refl
      fst-made (o, err x) = refl

  pub work-accept_checked :
      (env : Env) (k : Bytes) (e : Entry) (q : Result InboundError (Unit {0})) (o : Inbox)
      → work (get k (accept_checked env e q o).0) ≤ work (get k o)
  unfolding accept_checked
  work-accept_checked env k e (err x) o = omega arith
  work-accept_checked env k e (ok u) o = work-accept env k (file_name e.event_id) e _ o refl

  work-read_or_kept :
      (env : Env) (k name : Bytes) (now : ℕ) (q : Result InboundError EventRecord) (o : Inbox)
      → read_record name o ≡ q
      → work (get k (read_or_kept env name now q o).0) ≤ work (get k o)
  work-read_or_kept env k name now (err e) o read = omega arith
  work-read_or_kept env k name now (ok r) o read = elim (Bool-cases (r.read_at_unix == 0)) [
    | inr e ↦ rw e (omega arith)
    | inl e ↦ rw e (elim (Result-cases (read_event now r)) [
      | inr (x, refused) ↦ rw refused (unfold commit_record in omega arith)
      | inl (x, made) ↦
          let less = read_event-Lessens now r x made in
          let before = work-read name o r read in rw made (work-commit env k name x o (omega arith))
    ])
  ]

  pub work-marked :
      (env : Env) (k name : Bytes) (q : Result InboundError ℕ) (o : Inbox)
      → work (get k (marked env name q o).0) ≤ work (get k o)
  work-marked env k name (err e) o = omega arith
  work-marked env k name (ok now) o = work-read_or_kept env k name now _ o refl

  expiring-ends :
      (q : Quota) (now : ℕ) (r : Result InboundError EventRecord) (x : EventRecord)
      → expiring_event q now r ≡ some x
      → rank x.application ≡ 0
  unfolding expiring_event expired_event
  expiring-ends q now (err e) x h = cc
  expiring-ends q now (ok r) x h = ground arith

  work-expire_events :
      (env : Env) (k : Bytes) (now count : ℕ) (ns : List Bytes) (o : Inbox)
      → work (get k (expire_events env now count ns o).0) ≤ work (get k o)
  unfolding expire_events after_commit
  work-expire_events env k now count [] o = omega arith
  work-expire_events env k now count (name ∷ ns) o =
      elim (Option-cases (expiring_event env.quota now (read_record name o))) [
        | inl e ↦ rw (e, expire_events) (work-expire_events env k now count ns o)
        | inr (x, e) ↦
            let ended = expiring-ends env.quota now _ x e in
            rw (e, expire_events)
              (continued (commit_record env name (ok x) o)
                (work-commit env k name x o (omega arith))
                (λ o'. work-expire_events env k now (suc count) ns o'))
      ]
    where
      continued :
          (c : Inbox × Result InboundError EventRecord)
          → work (get k c.0) ≤ work (get k o)
          → ((o' : Inbox)
              → work (get k (expire_events env now (suc count) ns o').0) ≤ work (get k o'))
          → work (get k (after_commit c (λ o'. expire_events env now (suc count) ns o')).0)
            ≤ work (get k o)
      continued (o', ok x) le rest = let later = rest o' in omega arith
      continued (o', err x) le rest = le

  pub work-expire_events_from :
      (env : Env) (k : Bytes) (q : Result InboundError ℕ) (o : Inbox)
      → work (get k (expire_events_from env q o).0) ≤ work (get k o)
  unfolding expire_events_from
  work-expire_events_from env k (err e) o = omega arith
  work-expire_events_from env k (ok now) o = work-expire_events env k now 0 (event_names o) o
