-- ===== src/Inbound/Record.antt =====
-- pkg/eventlog/journal.go: the record of one inbound event, and what makes one readable; with the
-- session authority of session.go and the session identifier of pkg/e2ee/devices.go.
use tos_messenger.Base.{
  ℕ, Bool, true, false, ◌&&◌, ◌||◌, not, Option, none, some, [], ◌∷◌, ◌++◌, ltb, ◌==◌,
  if◌then◌else◌, Bytes, codes, length, eq_bytes, lt_bytes, drop, is_prefixed_hash, Result, ok, err,
  require, refuse_if, map_err, ◌>>=◌, ◌>>◌,
}
use tos_messenger.Canon.Encode.{Hash, digest, valid_digest, text}
use tos_messenger.Fault.Codes.{Code}
use tos_messenger.Fault.Codes
use tos_messenger.Delivery.Record.{
  Base64, is_event, is_endpoint, is_conversation, is_device, is_empty,
}

pub data InboundError : Type 0 where
  not_owned bad_event bad_sender bad_conversation bad_payload bad_time bad_admission pending_full :
      InboundError
  too_large write_failed conflict unknown_event invalid_record bad_lease_id bad_lease no_kind
        other_kind :
      InboundError
  not_admitted lease_mismatch not_pending lease_reused unknown_code read_too_early bad_kinds :
      InboundError
  bad_session invalid_payload payload_mismatch no_transition invalid_transition
        transition_mismatch :
      InboundError
  bad_session_input session_failed session_conflict : InboundError

-- In each of these, the last constructor stands for every string that names no state.
pub data AdmissionState : Type 0 where
  admitted undecided denied : AdmissionState
  other_admission : Bytes → AdmissionState

pub data CryptoState : Type 0 where
  unbound staged committed abandoned : CryptoState
  other_crypto : Bytes → CryptoState

pub data ApplicationState : Type 0 where
  queued claimed applied rejected : ApplicationState
  other_application : Bytes → ApplicationState

abbrev pub is_known_admission : AdmissionState → Bool
is_known_admission (other_admission s) = false
is_known_admission _ = true

abbrev pub is_admitted : AdmissionState → Bool
is_admitted admitted = true
is_admitted _ = false

abbrev pub is_undecided : AdmissionState → Bool
is_undecided undecided = true
is_undecided _ = false

abbrev pub is_known_application : ApplicationState → Bool
is_known_application (other_application s) = false
is_known_application _ = true

abbrev pub is_claimed : ApplicationState → Bool
is_claimed claimed = true
is_claimed _ = false

abbrev pub is_queued : ApplicationState → Bool
is_queued queued = true
is_queued _ = false

pub record SessionAuthority : Type 0 where
  pub local_agent_id : Bytes
  pub local_endpoint_id : Bytes
  pub local_device_id : Bytes
  pub peer_agent_id : Bytes
  pub peer_endpoint_id : Bytes
  pub peer_device_id : Bytes

pub record Transition : Type 0 where
  pub session_id : Bytes
  pub algorithm : Bytes
  pub expected_generation : ℕ  -- uint64
  pub next_state : Bytes
  pub authority : Option SessionAuthority

pub record Entry : Type 0 where
  pub event_id : Bytes
  pub sender_endpoint_id : Bytes
  pub conversation_id : Bytes
  pub payload : Bytes
  pub admission : AdmissionState
  pub received_at_unix : ℕ  -- uint64
  pub expires_at_unix : ℕ  -- uint64
  pub transition : Option Transition

-- Record; an empty code is none.
pub record EventRecord : Type 0 where
  pub schema : Bytes
  pub event_id : Bytes
  pub sender_endpoint_id : Bytes
  pub conversation_id : Bytes
  pub admission : AdmissionState
  pub admission_at_unix : ℕ  -- uint64
  pub admission_code : Option Code
  pub payload_base64 : Bytes
  pub payload_digest : Bytes
  pub received_at_unix : ℕ  -- uint64
  pub event_expires_at : ℕ  -- uint64
  pub crypto : CryptoState
  pub crypto_at_unix : ℕ  -- uint64
  pub session_id : Bytes
  pub algorithm_id : Bytes
  pub expected_gen : ℕ  -- uint64
  pub next_state_base64 : Bytes
  pub next_state_digest : Bytes
  pub session_authority : Option SessionAuthority
  pub application : ApplicationState
  pub lease_id : Bytes
  pub lease_expires_at : ℕ  -- uint64
  pub applied_at_unix : ℕ  -- uint64
  pub rejected_at_unix : ℕ  -- uint64
  pub rejection_code : Option Code
  pub read_at_unix : ℕ  -- uint64

abbrev pub event_schema : Bytes
event_schema = codes "tos.messaging.event-journal.v1"

-- leasePattern
abbrev pub is_lease : Bytes → Bool
is_lease s = is_prefixed_hash (codes "lease_") s

abbrev pub is_agent_id : Bytes → Bool
is_agent_id s = is_prefixed_hash (codes "agent_") s

-- Deliverable
unfoldable pub is_deliverable : EventRecord → Bool
is_deliverable r = elim r.crypto [ committed ↦ true | unbound ↦ true | _ ↦ false ]

-- Terminal
unfoldable pub is_terminal : EventRecord → Bool
is_terminal r = elim r.application [ applied ↦ true | rejected ↦ true | _ ↦ false ]

-- validateEntry
unfoldable pub validate_entry : Entry → Result InboundError (Unit {0})
validate_entry e = do
  require (is_event e.event_id) bad_event
  require (is_endpoint e.sender_endpoint_id) bad_sender
  require (is_conversation e.conversation_id) bad_conversation
  refuse_if (is_empty e.payload || ltb 163840 (length e.payload)) bad_payload
  refuse_if (e.received_at_unix == 0) bad_time
  require (is_known_admission e.admission) bad_admission

abbrev pub names_no_code : Option Code → Bool
names_no_code none = false
names_no_code (some c) = not (Codes.known c)

abbrev pub domain_device_session : Bytes
domain_device_session = codes "tos.messaging.device-session.v1" ++ 0 ∷ []

module _ ⦃h : Hash⦄ where
  -- DeviceSessionID
  unfoldable pub device_session_id : Bytes → Bytes → Result InboundError Bytes
  device_session_id a b = do
    require (is_device a && is_device b) bad_session
    refuse_if (eq_bytes a b) bad_session
    let first = if lt_bytes b a then b else a
    let second = if lt_bytes b a then a else b
    ok (codes "ses_" ++ drop 7 (digest (domain_device_session ++ (text first ++ text second))))

  -- SessionAuthority.validate
  unfoldable pub validate_authority : SessionAuthority → Bytes → Result InboundError (Unit {0})
  unfolding device_session_id
  validate_authority a session = do
    require
        (is_agent_id a.local_agent_id
          && is_endpoint a.local_endpoint_id
          && is_device a.local_device_id
          && is_agent_id a.peer_agent_id
          && is_endpoint a.peer_endpoint_id
          && is_device a.peer_device_id)
        bad_session
    expected ← device_session_id a.local_device_id a.peer_device_id
    require (eq_bytes expected session) bad_session

  unfoldable pub validate_optional :
      Option SessionAuthority → Bytes → Result InboundError (Unit {0})
  unfolding validate_authority
  validate_optional none session = ok tt
  validate_optional (some a) session = validate_authority a session

module _ ⦃h : Hash⦄ ⦃base64 : Base64⦄ where
  abbrev pub checked :
      Option Bytes → Bytes → InboundError → InboundError → Result InboundError Bytes
  checked none d bad other = err bad
  checked (some raw) d bad other = if eq_bytes (digest raw) d then ok raw else err other

  -- Payload
  unfoldable pub event_payload : EventRecord → Result InboundError Bytes
  event_payload r =
      checked (base64.decode r.payload_base64) r.payload_digest invalid_payload payload_mismatch

  -- NextState
  unfoldable pub next_state_of : EventRecord → Result InboundError Bytes
  next_state_of r = do
    refuse_if (is_empty r.next_state_base64) no_transition
    checked (base64.decode r.next_state_base64) r.next_state_digest invalid_transition
        transition_mismatch

  -- readRecord, behind the file and the JSON.
  unfoldable pub validate_record : EventRecord → Result InboundError (Unit {0})
  unfolding validate_optional
  validate_record r = do
    require (is_known_admission r.admission) invalid_record
    refuse_if (names_no_code r.admission_code) invalid_record
    require
        (eq_bytes r.schema event_schema
          && is_event r.event_id
          && is_endpoint r.sender_endpoint_id
          && is_conversation r.conversation_id
          && not (r.received_at_unix == 0)
          && valid_digest r.payload_digest)
        invalid_record
    require (is_known_application r.application) invalid_record
    refuse_if (is_claimed r.application && (not (is_lease r.lease_id) || r.lease_expires_at == 0))
        invalid_record
    refuse_if (names_no_code r.rejection_code) invalid_record
    payload ← map_err (λ _. invalid_record) (event_payload r)
    map_err (λ _. invalid_record) (validate_optional r.session_authority r.session_id)
