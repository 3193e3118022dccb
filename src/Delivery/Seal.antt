-- ===== src/Delivery/Seal.antt =====
-- pkg/eventlog/session.go: CommitSealed, which stores the sealed form of a delivery, as far as the
-- outbound directory goes. The validation of the algorithm and the session state, in pkg/e2ee, and
-- the transition in the session directory are answers that the caller of the definitions chooses.
use tos_messenger.Base.{
  ℕ, Bool, ◌&&◌, ◌||◌, not, ltb, leb, ◌==◌, Bytes, length, eq_bytes, Result, ok, require, refuse_if,
  ◌>>=◌, ◌>>◌, Time, unix_seconds,
}
use tos_messenger.Canon.Encode.{Hash, digest}
use tos_messenger.Delivery.Record.{
  Base64, Delivery, DeliveryError, is_pending, is_empty, is_session, is_attempt, is_delivery_id,
  not_owned, bad_session_input, bad_delivery, bad_attempt, bad_ciphertext, not_pending,
  other_session, lease_mismatch, already_sealed, session_failed,
}
use tos_messenger.Delivery.Outbox.{Env, Outbox, time_of, revise}

-- What a caller of CommitSealed hands over, and the answers of what is not modelled.
pub record Sealing : Type 0 where
  pub session_id : Bytes
  pub attempt_id : Bytes
  pub ciphertext : Bytes
  pub state_valid : Bool  -- e2ee.ValidateAlgorithmID and e2ee.ValidateState
  pub advanced : Bool  -- advanceSession

-- MaxCiphertextBytes
abbrev pub max_ciphertext_bytes : ℕ
max_ciphertext_bytes = 167936

-- The tests of CommitSealed before it reads the record.
unfoldable pub seal_request : Env → Bytes → Sealing → Time → Result DeliveryError ℕ
seal_request env id s now = do
  require env.owned not_owned
  require (is_session s.session_id && s.state_valid) bad_session_input
  seconds ← time_of (unix_seconds now)
  require (is_delivery_id id) bad_delivery
  require (is_attempt s.attempt_id) bad_attempt
  refuse_if (is_empty s.ciphertext || ltb max_ciphertext_bytes (length s.ciphertext)) bad_ciphertext
  ok seconds

module _ ⦃h : Hash⦄ ⦃base64 : Base64⦄ where
  -- What CommitSealed makes of the record that it read.
  unfoldable pub seal_change : Sealing → ℕ → Delivery → Result DeliveryError Delivery
  seal_change s now d = do
    require (is_pending d.state) not_pending
    require (eq_bytes d.session_id s.session_id) other_session
    require (eq_bytes d.attempt_id s.attempt_id) lease_mismatch
    refuse_if (not (d.attempt_expires_at == 0) && leb d.attempt_expires_at now) lease_mismatch
    require (is_empty d.ciphertext_base64) already_sealed
    require s.advanced session_failed
    ok (record d {
      ciphertext_base64 = base64.encode s.ciphertext;
      ciphertext_digest = digest s.ciphertext;
    })

  -- CommitSealed
  unfoldable pub commit_sealed :
      Env → Bytes → Sealing → Time → Outbox → Outbox × Result DeliveryError Delivery
  commit_sealed env id s now o = revise env id (seal_request env id s now) (seal_change s) o
