-- ===== src/Delivery/Record.antt =====
-- pkg/eventlog/delivery.go: the record of one outbound event, and what makes one readable. The
-- standard library's base64 is the parameter `Base64`.
use tos_messenger.Base.{
  [], ◌∷◌, ◌++◌, ℕ, ◌≡◌, Bool, true, false, ◌&&◌, ◌||◌, not, Option, none, some, ltb, leb, ◌==◌,
  if◌then◌else◌, Bytes, codes, length, eq_bytes, drop, is_prefixed_hash, Result, ok, err, require,
  refuse_if, map_err, ◌>>=◌, ◌>>◌,
}
use tos_messenger.Canon.Encode.{Hash, digest, valid_digest, text}
use tos_messenger.Fault.Codes.{Code}
use tos_messenger.Fault.Codes

-- encoding/base64's strict standard encoding: what was encoded is read back.
pub record Base64 : Type 0 where
  pub encode : Bytes → Bytes
  pub decode : Bytes → Option Bytes
  pub decode_encode : (b : Bytes) → decode (encode b) ≡ some b

pub data DeliveryError : Type 0 where
  not_owned bad_event bad_copy bad_endpoint copy_without_device bad_device bad_conversation :
      DeliveryError
  bad_session bad_payload bad_window bad_delivery bad_attempt bad_time bad_lease : DeliveryError
  unknown_delivery not_pending lease_mismatch expired_while_held conflict : DeliveryError
  invalid_payload payload_mismatch invalid_record write_failed : DeliveryError
  bad_session_input bad_ciphertext other_session already_sealed session_failed : DeliveryError

-- `other_state` stands for every string that names no state.
pub data DeliveryState : Type 0 where
  pending held delivered abandoned : DeliveryState
  other_state : Bytes → DeliveryState

abbrev pub is_known_state : DeliveryState → Bool
is_known_state (other_state s) = false
is_known_state _ = true

abbrev pub is_pending : DeliveryState → Bool
is_pending pending = true
is_pending _ = false

abbrev pub is_held : DeliveryState → Bool
is_held held = true
is_held _ = false

abbrev pub delivery_schema : Bytes
delivery_schema = codes "tos.messaging.delivery-journal.v1"

pub record Delivery : Type 0 where
  pub schema : Bytes
  pub delivery_id : Bytes
  pub event_id : Bytes
  pub session_id : Bytes
  pub payload_base64 : Bytes
  pub payload_digest : Bytes
  pub ciphertext_base64 : Bytes
  pub ciphertext_digest : Bytes
  pub attempt_id : Bytes
  pub attempt_expires_at : ℕ  -- uint64
  pub recipient_endpoint_id : Bytes
  pub recipient_device_id : Bytes
  pub conversation_id : Bytes
  pub state : DeliveryState
  pub attempts : ℕ  -- uint32
  pub last_code : Option Code  -- the empty code is none
  pub next_attempt_at_unix : ℕ  -- uint64
  pub created_at_unix : ℕ  -- uint64
  pub expires_at_unix : ℕ  -- uint64
  pub settled_at_unix : ℕ  -- uint64

pub record Outbound : Type 0 where
  pub delivery_id : Bytes
  pub event_id : Bytes
  pub session_id : Bytes
  pub recipient_endpoint_id : Bytes
  pub recipient_device_id : Bytes
  pub conversation_id : Bytes
  pub payload : Bytes
  pub created_at_unix : ℕ  -- uint64
  pub expires_at_unix : ℕ  -- uint64

abbrev pub is_empty : Bytes → Bool
is_empty s = length s == 0

abbrev pub is_event : Bytes → Bool
is_event s = is_prefixed_hash (codes "evt_") s

-- deliveryCopyPattern
abbrev pub is_copy : Bytes → Bool
is_copy s = is_prefixed_hash (codes "cpy_") s

abbrev pub is_endpoint : Bytes → Bool
is_endpoint s = is_prefixed_hash (codes "mep_") s

abbrev pub is_device : Bytes → Bool
is_device s = is_prefixed_hash (codes "dev_") s

abbrev pub is_conversation : Bytes → Bool
is_conversation s = is_prefixed_hash (codes "conv_") s

abbrev pub is_session : Bytes → Bool
is_session s = is_prefixed_hash (codes "ses_") s

-- attemptPattern
abbrev pub is_attempt : Bytes → Bool
is_attempt s = is_prefixed_hash (codes "send_") s

-- validDeliveryID
abbrev pub is_delivery_id : Bytes → Bool
is_delivery_id s = is_event s || is_copy s

-- Key
abbrev pub key : Delivery → Bytes
key d = if is_empty d.delivery_id then d.event_id else d.delivery_id

-- The name of the file under the outbound directory, without its suffix: an identifier without its
-- first four bytes.
abbrev pub file_name : Bytes → Bytes
file_name id = drop 4 id

-- validateOutbound
unfoldable pub validate_outbound : Outbound → Result DeliveryError (Unit {0})
validate_outbound r = do
  require (is_event r.event_id) bad_event
  refuse_if (not (is_empty r.delivery_id) && not (is_copy r.delivery_id)) bad_copy
  require (is_endpoint r.recipient_endpoint_id) bad_endpoint
  refuse_if (not (is_empty r.delivery_id) && not (is_device r.recipient_device_id))
      copy_without_device
  refuse_if
      (is_empty r.delivery_id
        && not (is_empty r.recipient_device_id)
        && not (is_device r.recipient_device_id))
      bad_device
  require (is_conversation r.conversation_id) bad_conversation
  require (is_session r.session_id) bad_session
  refuse_if (is_empty r.payload || ltb 163840 (length r.payload)) bad_payload
  refuse_if (r.created_at_unix == 0 || leb r.expires_at_unix r.created_at_unix) bad_window

is_unknown_code : Option Code → Bool
is_unknown_code none = false
is_unknown_code (some c) = not (Codes.known c)

module _ ⦃h : Hash⦄ ⦃base64 : Base64⦄ where
  abbrev decoded : Option Bytes → Bytes → Result DeliveryError Bytes
  decoded none d = err invalid_payload
  decoded (some raw) d = if eq_bytes (digest raw) d then ok raw else err payload_mismatch

  -- Payload
  unfoldable pub payload_of : Delivery → Result DeliveryError Bytes
  payload_of d = decoded (base64.decode d.payload_base64) d.payload_digest

  -- Ciphertext; no ciphertext is the empty one.
  unfoldable pub ciphertext_of : Delivery → Result DeliveryError Bytes
  ciphertext_of d =
      if is_empty d.ciphertext_base64
      then ok d.ciphertext_base64
      else decoded (base64.decode d.ciphertext_base64) d.ciphertext_digest

  -- readDelivery, behind the file and the JSON.
  unfoldable pub validate_delivery : Delivery → Result DeliveryError (Unit {0})
  unfolding is_unknown_code
  validate_delivery d = do
    require
        (eq_bytes d.schema delivery_schema
          && is_event d.event_id
          && is_endpoint d.recipient_endpoint_id
          && is_conversation d.conversation_id
          && not (d.created_at_unix == 0)
          && ltb d.created_at_unix d.expires_at_unix
          && valid_digest d.payload_digest)
        invalid_record
    refuse_if
        (not (is_empty d.delivery_id)
          && (not (is_copy d.delivery_id) || not (is_device d.recipient_device_id)))
        invalid_record
    refuse_if
        (is_empty d.delivery_id
          && not (is_empty d.recipient_device_id)
          && not (is_device d.recipient_device_id))
        invalid_record
    require (is_session d.session_id) invalid_record
    payload ← map_err (λ _. invalid_record) (payload_of d)
    ciphertext ← map_err (λ _. invalid_record) (ciphertext_of d)
    require (is_known_state d.state) invalid_record
    refuse_if (is_unknown_code d.last_code) invalid_record

abbrev pub domain_delivery_copy : Bytes
domain_delivery_copy = codes "tos.messaging.delivery-copy.v1" ++ 0 ∷ []

-- NewDeliveryCopyID; the digest loses its prefix of seven bytes.
unfoldable pub new_delivery_copy_id :
    ⦃h : Hash⦄ → Bytes → Bytes → Bytes → Result DeliveryError Bytes
new_delivery_copy_id event endpoint device = do
  require (is_event event && is_endpoint endpoint && is_device device) bad_copy
  ok (
      codes "cpy_"
      ++ drop 7 (digest (domain_delivery_copy ++ (text event ++ (text endpoint ++ text device)))))
