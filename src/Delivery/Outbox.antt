-- ===== src/Delivery/Outbox.antt =====
-- pkg/eventlog/delivery.go: the operations on the outbound directory. A file holds a record or
-- something that is none; the journal's mutex and directory lock make each operation one step.
use tos_messenger.Base.{
  ℕ, ◌/◌, Bool, true, false, ◌&&◌, ◌||◌, Option, none, some, [], ltb, if◌then◌else◌, Bytes,
  eq_bytes, Result, ok, err, require, refuse_if, ◌>>=◌, ◌>>◌, Time, unix_seconds, Table, get, set,
}
use tos_messenger.Canon.Encode.{Hash, digest}
use tos_messenger.Fault.Codes.{Code}
use tos_messenger.Fault.Retry.{second}
use tos_messenger.Delivery.Record.{
  Base64, Delivery, DeliveryError, Outbound, pending, delivered, abandoned, delivery_schema,
  is_empty, is_attempt, is_delivery_id, file_name, validate_outbound, validate_delivery, not_owned,
  bad_delivery, bad_attempt, bad_time, bad_lease, unknown_delivery, invalid_record, write_failed,
  conflict,
}
use tos_messenger.Delivery.Stored.{claim_change, failed_change, settle_change, resume_change}

pub data File : Type 0 where
  readable : Delivery → File
  unreadable : File

abbrev pub Outbox : Type 0
Outbox = Table File

-- How a write ends: on the disk; not on the disk, with an error; on the disk, with an error, when
-- only the directory could not be synced.
pub data Write : Type 0 where
  written lost unsynced : Write

-- Whether this process owns the directory, and how the next write of a record ends.
pub record Env : Type 0 where
  pub owned : Bool
  pub write : Delivery → Write

abbrev pub time_of : Option ℕ → Result DeliveryError ℕ
time_of none = err bad_time
time_of (some n) = ok n

-- The checks on the directory, the identifier and the time that the operations begin with.
unfoldable pub request_time : Env → Bytes → Time → Result DeliveryError ℕ
request_time env id now = do
  require env.owned not_owned
  require (is_delivery_id id) bad_delivery
  time_of (unix_seconds now)

-- The lease in whole seconds. A negative duration is below the bound, as 0 is.
unfoldable pub claim_request : Env → Bytes → Bytes → Time → ℕ → Result DeliveryError (ℕ × ℕ)
claim_request env id attempt now lease = do
  require env.owned not_owned
  require (is_delivery_id id) bad_delivery
  require (is_attempt attempt) bad_attempt
  seconds ← time_of (unix_seconds now)
  refuse_if (ltb (lease / second) 1 || ltb 3600 (lease / second)) bad_lease
  ok (seconds, lease / second)

-- commitDelivery
unfoldable pub write_as : Write → Bytes → Delivery → Outbox → Outbox × Result DeliveryError Delivery
write_as written name d o = (set name (readable d) o, ok d)
write_as lost name d o = (o, err write_failed)
write_as unsynced name d o = (set name (readable d) o, err write_failed)

unfoldable pub commit_delivery :
    Env → Bytes → Result DeliveryError Delivery → Outbox → Outbox × Result DeliveryError Delivery
unfolding write_as
commit_delivery env name (err e) o = (o, err e)
commit_delivery env name (ok d) o = write_as (env.write d) name d o

module _ ⦃h : Hash⦄ ⦃base64 : Base64⦄ where
  -- readDelivery
  unfoldable pub read_file : Option File → Result DeliveryError Delivery
  read_file none = err unknown_delivery
  read_file (some unreadable) = err invalid_record
  read_file (some (readable d)) = do validate_delivery d; ok d

  unfoldable pub read_delivery : Bytes → Outbox → Result DeliveryError Delivery
  unfolding read_file
  read_delivery name o = read_file (get name o)

  -- An operation that reads a record, changes it and writes it back.
  unfoldable pub revise :
      {A : Type 0}
      → Env
      → Bytes
      → Result DeliveryError A
      → (A → Delivery → Result DeliveryError Delivery)
      → Outbox
      → Outbox × Result DeliveryError Delivery
  unfolding commit_delivery
  revise env id (err e) change o = (o, err e)
  revise env id (ok a) change o =
      commit_delivery env (file_name id) (do d ← read_delivery (file_name id) o; change a d) o

  -- ClaimForSend
  unfoldable pub claim_for_send :
      Env → Bytes → Bytes → Time → ℕ → Outbox → Outbox × Result DeliveryError Delivery
  claim_for_send env id attempt now lease o =
      revise env id (claim_request env id attempt now lease) (λ a. claim_change attempt a.0 a.1) o

  -- Failed
  unfoldable pub failed :
      Env → Bytes → Bytes → Code → Time → Outbox → Outbox × Result DeliveryError Delivery
  failed env id attempt code now o =
      revise env id (request_time env id now) (failed_change attempt code) o

  -- Delivered
  unfoldable pub settle_delivered :
      Env → Bytes → Bytes → Time → Outbox → Outbox × Result DeliveryError Delivery
  settle_delivered env id attempt now o =
      revise env id (request_time env id now) (settle_change attempt delivered) o

  -- Abandon
  unfoldable pub abandon : Env → Bytes → Time → Outbox → Outbox × Result DeliveryError Delivery
  abandon env id now o = revise env id (request_time env id now) (settle_change [] abandoned) o

  -- Resume
  unfoldable pub resume : Env → Bytes → Time → Outbox → Outbox × Result DeliveryError Delivery
  resume env id now o = revise env id (request_time env id now) resume_change o

  -- The record that `Enqueue` makes of a request.
  unfoldable pub fresh_delivery : Outbound → Delivery
  fresh_delivery r = record {
    schema = delivery_schema;
    delivery_id = r.delivery_id;
    event_id = r.event_id;
    session_id = r.session_id;
    payload_base64 = base64.encode r.payload;
    payload_digest = digest r.payload;
    ciphertext_base64 = [];
    ciphertext_digest = [];
    attempt_id = [];
    attempt_expires_at = 0;
    recipient_endpoint_id = r.recipient_endpoint_id;
    recipient_device_id = r.recipient_device_id;
    conversation_id = r.conversation_id;
    state = pending;
    attempts = 0;
    last_code = none;
    next_attempt_at_unix = r.created_at_unix;
    created_at_unix = r.created_at_unix;
    expires_at_unix = r.expires_at_unix;
    settled_at_unix = 0;
  }

  -- The tests of `Enqueue` on a record that is already there.
  unfoldable pub same_request : Outbound → Delivery → Bool
  same_request r d =
      eq_bytes d.recipient_endpoint_id r.recipient_endpoint_id
      && eq_bytes d.recipient_device_id r.recipient_device_id
      && eq_bytes d.conversation_id r.conversation_id
      && eq_bytes d.session_id r.session_id
      && eq_bytes d.payload_digest (digest r.payload)

  unfoldable pub created :
      Outbox × Result DeliveryError Delivery → Outbox × Result DeliveryError (Bool × Delivery)
  created (o, ok d) = (o, ok (true, d))
  created (o, err e) = (o, err e)

  unfoldable pub enqueue_at :
      Env
      → Bytes
      → Outbound
      → Option File
      → Outbox
      → Outbox × Result DeliveryError (Bool × Delivery)
  unfolding created write_as
  enqueue_at env name r none o =
      created (write_as (env.write (fresh_delivery r)) name (fresh_delivery r) o)
  enqueue_at env name r (some file) o = (
    o,
    do
      existing ← read_file (some file)
      require (same_request r existing) conflict
      ok (false, existing),
  )

  unfoldable pub request_name : Outbound → Bytes
  request_name r = file_name (if is_empty r.delivery_id then r.event_id else r.delivery_id)

  unfoldable pub enqueue_checked :
      Env
      → Outbound
      → Result DeliveryError (Unit {0})
      → Outbox
      → Outbox × Result DeliveryError (Bool × Delivery)
  enqueue_checked env r (err e) o = (o, err e)
  enqueue_checked env r (ok u) o = enqueue_at env (request_name r) r (get (request_name r) o) o

  -- Enqueue. A file that could not be synced is removed again, unless that fails too.
  unfoldable pub enqueue : Env → Outbound → Outbox → Outbox × Result DeliveryError (Bool × Delivery)
  enqueue env r o = enqueue_checked env r (do require env.owned not_owned; validate_outbound r) o
