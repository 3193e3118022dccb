-- ===== src/Delivery/Stored.antt =====
-- pkg/eventlog/delivery.go: what each operation makes of the record that it read, before it writes.
use tos_messenger.Base.{
  ℕ, ◌+◌, ◌/◌, Bool, ◌&&◌, ◌||◌, not, Option, none, some, [], ltb, leb, if◌then◌else◌, Bytes,
  eq_bytes, Result, ok, require, refuse_if, ◌>>◌, u32, u64,
}
use tos_messenger.Fault.Codes.{Code, unclassified}
use tos_messenger.Fault.Retry.{Retry, next_code, second}
use tos_messenger.Fault.Visibility.{is_waiting}
use tos_messenger.Delivery.Record.{
  Delivery, DeliveryState, DeliveryError, pending, held, abandoned, is_pending, is_held, is_empty,
  not_pending, lease_mismatch, expired_while_held,
}

-- holdsAttempt
abbrev pub holds_attempt : Delivery → Bytes → Bool
holds_attempt d attempt = not (is_empty d.attempt_id) && eq_bytes d.attempt_id attempt

-- ClaimForSend, at a time, with the seconds of the lease.
unfoldable pub claim_change : Bytes → ℕ → ℕ → Delivery → Result DeliveryError Delivery
claim_change attempt now lease d = do
  require (is_pending d.state) not_pending
  refuse_if (ltb now d.attempt_expires_at && not (eq_bytes d.attempt_id attempt)) lease_mismatch
  ok (record d { attempt_id = attempt; attempt_expires_at = u64 (now + lease) })

abbrev pub abandon_at : ℕ → Delivery → Delivery
abandon_at now d = record d { state = abandoned; next_attempt_at_unix = 0; settled_at_unix = now }

-- The `switch` of `Failed`.
unfoldable pub reschedule : Retry → ℕ → Delivery → Delivery
reschedule retry now d =
    let next = u64 (now + retry.after / second) in
    if leb d.expires_at_unix now
    then abandon_at now d
    else if retry.allowed
    then (if leb d.expires_at_unix next
        then abandon_at now d
        else record d { next_attempt_at_unix = next })
    else if is_waiting retry.disposition
    then record d { state = held; next_attempt_at_unix = 0 }
    else abandon_at now d

-- A code as the record's field: the empty string is no code.
abbrev pub code_field : Code → Option Code
code_field (unclassified []) = none
code_field c = some c

-- Failed
unfoldable pub failed_change : Bytes → Code → ℕ → Delivery → Result DeliveryError Delivery
unfolding reschedule
failed_change attempt code now d = do
  require (is_pending d.state) not_pending
  require (holds_attempt d attempt) lease_mismatch
  let tried = u32 (d.attempts + 1)
  ok (
      reschedule (next_code code tried) now (record d {
        attempts = tried;
        attempt_id = [];
        attempt_expires_at = 0;
        last_code = code_field code;
      }))

-- settle
unfoldable pub settle_change : Bytes → DeliveryState → ℕ → Delivery → Result DeliveryError Delivery
settle_change attempt state now d = do
  require (is_pending d.state || is_held d.state) not_pending
  refuse_if (not (is_empty attempt) && not (holds_attempt d attempt)) lease_mismatch
  ok (record d {
    state = state;
    next_attempt_at_unix = 0;
    attempt_id = [];
    attempt_expires_at = 0;
    settled_at_unix = now;
  })

-- Resume
unfoldable pub resume_change : ℕ → Delivery → Result DeliveryError Delivery
resume_change now d = do
  require (is_held d.state) not_pending
  refuse_if (leb d.expires_at_unix now) expired_while_held
  ok (record d {
    state = pending;
    next_attempt_at_unix = now;
    attempt_id = [];
    attempt_expires_at = 0;
  })
