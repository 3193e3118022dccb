-- ===== src/Inbound/Sweep.antt =====
-- pkg/eventlog: the listings of journal.go and the expiry of quota.go, over the inbound directory. What
-- is hidden by a moderator is the argument `hidden`, the moderation ledger's answer for an event.
use tos_messenger.Base.{
  ℕ, suc, Bool, true, false, ◌&&◌, not, Option, none, some, List, [], ◌∷◌, take, ltb, leb, ◌==◌,
  if◌then◌else◌, Bytes, lt_bytes, sort_by, Result, ok, err, require, ◌>>=◌, ◌>>◌, Time,
  unix_seconds,
}
use tos_messenger.Canon.Encode.{Hash}
use tos_messenger.Delivery.Record.{Base64}
use tos_messenger.Inbound.Record.{
  EventRecord, InboundError, queued, claimed, is_admitted, is_undecided, is_deliverable, not_owned,
}
use tos_messenger.Inbound.Stored.{expired_event}
use tos_messenger.Inbound.Queue.{
  Inbox, Quota, Env, time_of, is_expired, commit_record, read_stored, read_record,
}

-- The tests of `ListPending` on a record, without the moderation.
unfoldable pub is_offered : ℕ → EventRecord → Bool
unfolding is_deliverable
is_offered now r =
    is_admitted r.admission
    && is_deliverable r
    && elim r.application [ queued ↦ true | claimed ↦ leb r.lease_expires_at now | _ ↦ false ]

-- The order of the listings.
abbrev pub received_before : EventRecord → EventRecord → Bool
received_before a b =
    if a.received_at_unix == b.received_at_unix
    then lt_bytes a.event_id b.event_id
    else ltb a.received_at_unix b.received_at_unix

-- `if limit > 0 && len(list) > limit { list = list[:limit] }`; a limit below 0 is 0 here.
abbrev pub cut : ℕ → List EventRecord → List EventRecord
cut limit rs = if limit == 0 then rs else take limit rs

abbrev pub unless_hidden : EventRecord → Bool → List EventRecord → List EventRecord
unless_hidden r true rest = rest
unless_hidden r false rest = r ∷ rest

module _ ⦃h : Hash⦄ ⦃base64 : Base64⦄ where
  keep_offered :
      (Bytes → Result InboundError Bool)
      → ℕ
      → Result InboundError EventRecord
      → Result InboundError (List EventRecord)
      → Result InboundError (List EventRecord)
  unfolding is_offered
  keep_offered hidden now (err e) rest = rest
  keep_offered hidden now (ok r) rest =
      if is_offered now r
      then (do flag ← hidden r.event_id; rs ← rest; ok (unless_hidden r flag rs))
      else rest

  -- The loop of `ListPending`.
  unfoldable pub collect_offered :
      (Bytes → Result InboundError Bool) → ℕ → Inbox → Result InboundError (List EventRecord)
  unfolding keep_offered
  collect_offered hidden now [] = ok []
  collect_offered hidden now ((name, file) ∷ o) =
      keep_offered hidden now (read_stored (some file)) (collect_offered hidden now o)

  -- ListPending
  unfoldable pub list_pending :
      (Bytes → Result InboundError Bool)
      → Env
      → Time
      → ℕ
      → Inbox
      → Result InboundError (List EventRecord)
  list_pending hidden env now limit o = do
    require env.owned not_owned
    seconds ← time_of (unix_seconds now)
    rs ← collect_offered hidden seconds o
    ok (cut limit (sort_by received_before rs))

  keep_waiting : Quota → ℕ → Result InboundError EventRecord → List EventRecord → List EventRecord
  keep_waiting q now (err e) rs = rs
  keep_waiting q now (ok r) rs =
      if is_undecided r.admission && not (is_expired q now r) then r ∷ rs else rs

  -- The loop of `ListAwaitingAdmission`.
  unfoldable pub collect_waiting : Quota → ℕ → Inbox → List EventRecord
  unfolding keep_waiting
  collect_waiting q now [] = []
  collect_waiting q now ((name, file) ∷ o) =
      keep_waiting q now (read_stored (some file)) (collect_waiting q now o)

  -- ListAwaitingAdmission, at a time that is not negative.
  unfoldable pub list_awaiting_admission :
      Env → ℕ → ℕ → Inbox → Result InboundError (List EventRecord)
  list_awaiting_admission env now limit o = do
    require env.owned not_owned
    ok (cut limit (sort_by received_before (collect_waiting env.quota now o)))

  -- What a round of `ExpirePendingAdmissions` writes under a name, if anything.
  unfoldable pub expiring_event : Quota → ℕ → Result InboundError EventRecord → Option EventRecord
  unfolding expired_event is_expired
  expiring_event q now (err e) = none
  expiring_event q now (ok r) =
      if is_undecided r.admission && is_expired q now r then some (expired_event now r) else none

  unfoldable pub after_commit :
      Inbox × Result InboundError EventRecord
      → (Inbox → Inbox × Result InboundError ℕ)
      → Inbox × Result InboundError ℕ
  after_commit (o, ok r) rest = rest o
  after_commit (o, err e) rest = (o, err e)

  -- The loop of `ExpirePendingAdmissions`, over the names that the directory had.
  unfoldable pub expire_events : Env → ℕ → ℕ → List Bytes → Inbox → Inbox × Result InboundError ℕ
  expire_events env now count [] o = (o, ok count)
  expire_events env now count (name ∷ rest) o =
      elim (expiring_event env.quota now (read_record name o)) [
        | none ↦ expire_events env now count rest o
        | some r ↦
            after_commit (commit_record env name (ok r) o)
              (λ o'. expire_events env now (suc count) rest o')
      ]

  abbrev pub event_names : Inbox → List Bytes
  event_names [] = []
  event_names ((name, file) ∷ o) = name ∷ event_names o

  unfoldable pub expire_events_from :
      Env → Result InboundError ℕ → Inbox → Inbox × Result InboundError ℕ
  expire_events_from env (err e) o = (o, err e)
  expire_events_from env (ok now) o = expire_events env now 0 (event_names o) o

  -- ExpirePendingAdmissions; the count beside an error is left out.
  unfoldable pub expire_pending_admissions : Env → Time → Inbox → Inbox × Result InboundError ℕ
  unfolding expire_events_from
  expire_pending_admissions env now o =
      expire_events_from env (do require env.owned not_owned; time_of (unix_seconds now)) o
