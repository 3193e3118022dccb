-- ===== src/Inbound/Queue.antt =====
-- pkg/eventlog/journal.go: the operations on the inbound directory, as in Delivery/Outbox.antt; and
-- the bounds of quota.go on what waits for the owner.
use tos_messenger.Base.{
  ℕ, ◌+◌, ◌/◌, Bool, true, false, ◌&&◌, ◌||◌, not, Option, none, some, List, [], ◌∷◌, ltb, leb,
  ◌==◌, if◌then◌else◌, Bytes, length, eq_bytes, Result, ok, err, require, refuse_if, ◌>>=◌, ◌>>◌,
  Time, unix_seconds, Table, get, set, u64,
}
use tos_messenger.Canon.Encode.{Hash, digest}
use tos_messenger.Fault.Codes.{Code}
use tos_messenger.Fault.Codes
use tos_messenger.Fault.Retry.{second}
use tos_messenger.Delivery.Record.{Base64, is_event, is_empty, file_name}
use tos_messenger.Delivery.Outbox.{Write, written, lost, unsynced}
use tos_messenger.Inbound.Record.{
  Entry, Transition, EventRecord, InboundError, event_schema, is_undecided, is_lease, unbound,
  staged, queued, validate_entry, validate_record, not_owned, bad_event, bad_time, bad_lease_id,
  bad_lease, bad_kinds, unknown_event, unknown_code, invalid_record, write_failed, too_large,
  conflict, pending_full,
}
use tos_messenger.Inbound.Stored.{
  EventJson, Kinds, any_kind, only, except, lists, claim_event, finish_event, read_event,
  decide_event,
}

pub data Stored : Type 0 where
  readable : EventRecord → Stored
  unreadable : Stored

abbrev pub Inbox : Type 0
Inbox = Table Stored

-- The bounds are positive; the age is a count of nanoseconds.
pub record Quota : Type 0 where
  pub max_pending_admissions : ℕ
  pub max_pending_per_sender : ℕ
  pub max_pending_bytes : ℕ
  pub max_pending_age : ℕ

-- Whether this process owns the directory, its bounds, whether the JSON of a record is within its
-- bound, and how the next write ends.
pub record Env : Type 0 where
  pub owned : Bool
  pub quota : Quota
  pub fits : EventRecord → Bool
  pub write : EventRecord → Write

abbrev pub time_of : Option ℕ → Result InboundError ℕ
time_of none = err bad_time
time_of (some n) = ok n

-- The checks that the operations on one event begin with.
unfoldable pub event_time : Env → Bytes → Time → Result InboundError ℕ
event_time env id now = do
  require env.owned not_owned
  require (is_event id) bad_event
  time_of (unix_seconds now)

unfoldable pub lease_time : Env → Bytes → Bytes → Time → Result InboundError ℕ
lease_time env id lease now = do
  require env.owned not_owned
  require (is_event id) bad_event
  require (is_lease lease) bad_lease_id
  time_of (unix_seconds now)

-- The lease in whole seconds, as in Delivery/Outbox.antt.
unfoldable pub claim_time : Env → Bytes → Bytes → Time → ℕ → Result InboundError (ℕ × ℕ)
unfolding lease_time
claim_time env id lease now duration = do
  seconds ← lease_time env id lease now
  refuse_if (ltb (duration / second) 1 || ltb 3600 (duration / second)) bad_lease
  ok (seconds, duration / second)

-- expired
unfoldable pub is_expired : Quota → ℕ → EventRecord → Bool
is_expired q now r =
    (not (r.event_expires_at == 0) && leb r.event_expires_at now)
    || (not (r.received_at_unix == 0)
        && leb (u64 (r.received_at_unix + q.max_pending_age / second)) now)

unfoldable pub write_record :
    Write → Bytes → EventRecord → Inbox → Inbox × Result InboundError EventRecord
write_record written name r o = (set name (readable r) o, ok r)
write_record lost name r o = (o, err write_failed)
write_record unsynced name r o = (set name (readable r) o, err write_failed)

-- commit
unfoldable pub commit_record :
    Env → Bytes → Result InboundError EventRecord → Inbox → Inbox × Result InboundError EventRecord
unfolding write_record
commit_record env name (err e) o = (o, err e)
commit_record env name (ok r) o =
    if env.fits r then write_record (env.write r) name r o else (o, err too_large)

-- The check on a code that a caller names; the empty one is none.
abbrev pub known_code : Option Code → Result InboundError (Unit {0})
known_code none = ok tt
known_code (some c) = require (Codes.known c) unknown_code

-- What waits for the owner: how many events, how many of one sender, and their bytes.
pub record Waiting : Type 0 where
  pub total : ℕ
  pub for_sender : ℕ
  pub bytes : ℕ

count_waiting : Quota → ℕ → Bytes → Result InboundError EventRecord → Waiting → Waiting
unfolding is_expired
count_waiting q now sender (err e) w = w
count_waiting q now sender (ok r) w =
    if is_undecided r.admission && not (is_expired q now r)
    then record {
      total = w.total + 1;
      for_sender =
          (if eq_bytes r.sender_endpoint_id sender then w.for_sender + 1 else w.for_sender);
      bytes = w.bytes + length r.payload_base64;
    }
    else w

module _ ⦃h : Hash⦄ ⦃base64 : Base64⦄ where
  -- readRecord
  unfoldable pub read_stored : Option Stored → Result InboundError EventRecord
  read_stored none = err unknown_event
  read_stored (some unreadable) = err invalid_record
  read_stored (some (readable r)) = do validate_record r; ok r

  unfoldable pub read_record : Bytes → Inbox → Result InboundError EventRecord
  unfolding read_stored
  read_record name o = read_stored (get name o)

  -- An operation that reads a record, changes it and writes it back.
  unfoldable pub amend_record :
      {A : Type 0}
      → Env
      → Bytes
      → Result InboundError A
      → (A → EventRecord → Result InboundError EventRecord)
      → Inbox
      → Inbox × Result InboundError EventRecord
  unfolding commit_record
  amend_record env id (err e) change o = (o, err e)
  amend_record env id (ok a) change o =
      commit_record env (file_name id) (do r ← read_record (file_name id) o; change a r) o

  -- The loop of pendingCapacity.
  unfoldable pub waiting_in : Quota → ℕ → Bytes → ℕ → Inbox → Waiting
  unfolding count_waiting
  waiting_in q now sender size [] = record { total = 0; for_sender = 0; bytes = size }
  waiting_in q now sender size ((name, file) ∷ o) =
      count_waiting q now sender (read_stored (some file)) (waiting_in q now sender size o)

  -- pendingCapacity
  unfoldable pub pending_capacity : Quota → Bytes → ℕ → ℕ → Inbox → Result InboundError (Unit {0})
  unfolding waiting_in
  pending_capacity q sender size now o = do
    let w = waiting_in q now sender size o
    refuse_if (leb q.max_pending_admissions w.total) pending_full
    refuse_if (leb q.max_pending_per_sender w.for_sender) pending_full
    refuse_if (ltb q.max_pending_bytes w.bytes) pending_full

  unfoldable pub with_transition : Option Transition → ℕ → EventRecord → EventRecord
  with_transition none at r = r
  with_transition (some t) at r = record r {
    crypto = staged;
    session_id = t.session_id;
    algorithm_id = t.algorithm;
    expected_gen = t.expected_generation;
    next_state_base64 = base64.encode t.next_state;
    next_state_digest = digest t.next_state;
    session_authority = t.authority;
    crypto_at_unix = at;
  }

  -- The record that `Accept` makes of an entry.
  unfoldable pub fresh_record : Entry → EventRecord
  unfolding with_transition
  fresh_record e = with_transition e.transition e.received_at_unix (record {
    schema = event_schema;
    event_id = e.event_id;
    sender_endpoint_id = e.sender_endpoint_id;
    conversation_id = e.conversation_id;
    admission = e.admission;
    admission_at_unix = 0;
    admission_code = none;
    payload_base64 = base64.encode e.payload;
    payload_digest = digest e.payload;
    received_at_unix = e.received_at_unix;
    event_expires_at = e.expires_at_unix;
    crypto = unbound;
    crypto_at_unix = 0;
    session_id = [];
    algorithm_id = [];
    expected_gen = 0;
    next_state_base64 = [];
    next_state_digest = [];
    session_authority = none;
    application = queued;
    lease_id = [];
    lease_expires_at = 0;
    applied_at_unix = 0;
    rejected_at_unix = 0;
    rejection_code = none;
    read_at_unix = 0;
  })

  abbrev pub made_fresh :
      Inbox × Result InboundError EventRecord → Inbox × Result InboundError (Bool × EventRecord)
  made_fresh (o, ok r) = (o, ok (true, r))
  made_fresh (o, err e) = (o, err e)

  unfoldable pub accept_at :
      Env
      → Bytes
      → Entry
      → EventRecord
      → Option Stored
      → Inbox
      → Inbox × Result InboundError (Bool × EventRecord)
  accept_at env name e r none o = made_fresh (write_record (env.write r) name r o)
  accept_at env name e r (some file) o = (
    o,
    do
      existing ← read_stored (some file)
      require
          (eq_bytes existing.sender_endpoint_id e.sender_endpoint_id
            && eq_bytes existing.conversation_id e.conversation_id
            && eq_bytes existing.payload_digest r.payload_digest)
          conflict
      ok (false, existing),
  )

  -- Only an event that waits for the owner is counted.
  unfoldable pub within_quota : Quota → Entry → Bool → Inbox → Result InboundError (Unit {0})
  unfolding pending_capacity
  within_quota q e false o = ok tt
  within_quota q e true o =
      pending_capacity q e.sender_endpoint_id (length e.payload) e.received_at_unix o

  -- The checks of `Accept` before it writes.
  unfoldable pub accept_checks : Env → Entry → Inbox → Result InboundError (Unit {0})
  unfolding within_quota fresh_record
  accept_checks env e o = do
    require env.owned not_owned
    validate_entry e
    within_quota env.quota e (is_undecided e.admission) o
    require (env.fits (fresh_record e)) too_large

  unfoldable pub accept_checked :
      Env
      → Entry
      → Result InboundError (Unit {0})
      → Inbox
      → Inbox × Result InboundError (Bool × EventRecord)
  unfolding accept_at
  accept_checked env e (err x) o = (o, err x)
  accept_checked env e (ok u) o =
      accept_at env (file_name e.event_id) e (fresh_record e) (get (file_name e.event_id) o) o

  -- Accept
  unfoldable pub accept : Env → Entry → Inbox → Inbox × Result InboundError (Bool × EventRecord)
  unfolding accept_checked
  accept env e o = accept_checked env e (accept_checks env e o) o

  -- CompleteApplication
  unfoldable pub complete_application :
      Env → Bytes → Bytes → Time → Inbox → Inbox × Result InboundError EventRecord
  complete_application env id lease now o =
      amend_record env id (lease_time env id lease now) (finish_event lease none) o

  -- RejectApplication
  unfoldable pub reject_application :
      Env → Bytes → Bytes → Option Code → Time → Inbox → Inbox × Result InboundError EventRecord
  reject_application env id lease code now o =
      amend_record env id (do known_code code; lease_time env id lease now)
        (finish_event lease (some code)) o

  -- AdmitEvent
  unfoldable pub admit_event : Env → Bytes → Time → Inbox → Inbox × Result InboundError EventRecord
  admit_event env id now o = amend_record env id (event_time env id now) (decide_event none) o

  -- DenyEvent
  unfoldable pub deny_event :
      Env → Bytes → Option Code → Time → Inbox → Inbox × Result InboundError EventRecord
  deny_event env id code now o =
      amend_record env id (do known_code code; event_time env id now) (decide_event (some code)) o

  abbrev pub read_or_kept :
      Env
      → Bytes
      → ℕ
      → Result InboundError EventRecord
      → Inbox
      → Inbox × Result InboundError EventRecord
  read_or_kept env name now (err e) o = (o, err e)
  read_or_kept env name now (ok r) o =
      if r.read_at_unix == 0 then commit_record env name (read_event now r) o else (o, ok r)

  abbrev pub marked :
      Env → Bytes → Result InboundError ℕ → Inbox → Inbox × Result InboundError EventRecord
  marked env name (err e) o = (o, err e)
  marked env name (ok now) o = read_or_kept env name now (read_record name o) o

  -- MarkRead
  unfoldable pub mark_read : Env → Bytes → Time → Inbox → Inbox × Result InboundError EventRecord
  mark_read env id now o = marked env (file_name id) (event_time env id now) o

-- The kinds of ClaimForApplicationKinds and its variants: one to 32 that are not empty, each once.
unfoldable pub distinct_kinds : List Bytes → Result InboundError (Unit {0})
distinct_kinds [] = ok tt
distinct_kinds (k ∷ ks) = do distinct_kinds ks; refuse_if (is_empty k || lists k ks) bad_kinds

unfoldable pub check_kinds : Kinds → Result InboundError (Unit {0})
unfolding distinct_kinds
check_kinds any_kind = ok tt
check_kinds (only ks) = do
  refuse_if (length ks == 0 || ltb 32 (length ks)) bad_kinds
  distinct_kinds ks
check_kinds (except ks) = do
  refuse_if (length ks == 0 || ltb 32 (length ks)) bad_kinds
  distinct_kinds ks

-- ClaimForApplication, ClaimForApplicationKinds and ClaimForApplicationExceptKinds.
unfoldable pub claim_for_application :
    ⦃h : Hash⦄
    → ⦃base64 : Base64⦄ → ⦃json : EventJson⦄ → Env
    → Kinds
    → Bytes
    → Bytes
    → Time
    → ℕ
    → Inbox
    → Inbox × Result InboundError EventRecord
claim_for_application env kinds id lease now duration o =
    amend_record env id (do check_kinds kinds; claim_time env id lease now duration)
      (λ a. claim_event kinds lease a.0 a.1) o
