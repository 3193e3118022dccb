-- ===== src/Inbound/Stored.antt =====
-- pkg/eventlog/journal.go: what each operation makes of the record that it read, before it writes. The
-- kind of an event is in its JSON, so it is the parameter `EventJson`.
use tos_messenger.Base.{
  ℕ, ◌+◌, Bool, false, ◌||◌, Option, none, some, List, [], ◌∷◌, ltb, Bytes, eq_bytes, Result, ok,
  err, require, refuse_if, ◌>>=◌, ◌>>◌, u64,
}
use tos_messenger.Canon.Encode.{Hash}
use tos_messenger.Fault.Codes.{Code, event_outside_window}
use tos_messenger.Delivery.Record.{Base64}
use tos_messenger.Inbound.Record.{
  EventRecord, ApplicationState, queued, claimed, applied, rejected, admitted, denied, is_admitted,
  is_undecided, is_claimed, event_payload, InboundError, no_kind, other_kind, not_admitted,
  lease_mismatch, not_pending, lease_reused, read_too_early,
}

-- The string under `event_kind` in the JSON of an event; the empty string is none.
pub record EventJson : Type 0 where
  pub event_kind : Bytes → Option Bytes

-- Which kinds a claim is for: `required`, `excluded` and `allowed` of claimForApplicationKind.
pub data Kinds : Type 0 where
  any_kind : Kinds
  only except : List Bytes → Kinds

abbrev pub lists : Bytes → List Bytes → Bool
lists k [] = false
lists k (x ∷ xs) = eq_bytes x k || lists k xs

abbrev pub fits_kind : Kinds → Option Bytes → Result InboundError (Unit {0})
fits_kind any_kind k = ok tt
fits_kind _ none = err no_kind
fits_kind (only ks) (some k) = require (lists k ks) other_kind
fits_kind (except ks) (some k) = refuse_if (lists k ks) other_kind

-- The switch on the application state, at a time and an expiry of the lease.
abbrev pub may_claim : ℕ → ℕ → ApplicationState → Result InboundError (Unit {0})
may_claim now expires queued = ok tt
may_claim now expires claimed = refuse_if (ltb now expires) lease_mismatch
may_claim now expires _ = err not_pending

module _ ⦃h : Hash⦄ ⦃base64 : Base64⦄ ⦃json : EventJson⦄ where
  -- The test of a claim on the kind of the event; a claim for any kind does not read the payload.
  unfoldable pub check_kind : Kinds → EventRecord → Result InboundError (Unit {0})
  check_kind any_kind r = ok tt
  check_kind ks r = do payload ← event_payload r; fits_kind ks (json.event_kind payload)

  -- claimForApplicationKind, at a time, with the seconds of the lease.
  unfoldable pub claim_event : Kinds → Bytes → ℕ → ℕ → EventRecord → Result InboundError EventRecord
  unfolding check_kind
  claim_event kinds lease now seconds r = do
    check_kind kinds r
    require (is_admitted r.admission) not_admitted
    may_claim now r.lease_expires_at r.application
    refuse_if (eq_bytes r.lease_id lease) lease_reused
    ok (record r {
      application = claimed;
      lease_id = lease;
      lease_expires_at = u64 (now + seconds);
    })

abbrev pub finished : Option (Option Code) → ℕ → EventRecord → EventRecord
finished none now r = record r {
  application = applied;
  lease_id = [];
  lease_expires_at = 0;
  applied_at_unix = now;
}
finished (some code) now r = record r {
  application = rejected;
  lease_id = [];
  lease_expires_at = 0;
  rejected_at_unix = now;
  rejection_code = code;
}

-- finish; a completion has no code, a rejection one that may be empty.
unfoldable pub finish_event :
    Bytes → Option (Option Code) → ℕ → EventRecord → Result InboundError EventRecord
finish_event lease code now r = do
  require (is_claimed r.application) not_pending
  require (eq_bytes r.lease_id lease) lease_mismatch
  ok (finished code now r)

-- MarkRead
unfoldable pub read_event : ℕ → EventRecord → Result InboundError EventRecord
read_event now r = do
  refuse_if (ltb now r.received_at_unix) read_too_early
  ok (record r { read_at_unix = now })

abbrev pub or_code : Option Code → Option Code → Option Code
or_code none code = code
or_code (some c) code = some c

-- decideAdmission; an admission has no code, a denial one that may be empty.
unfoldable pub decide_event :
    Option (Option Code) → ℕ → EventRecord → Result InboundError EventRecord
decide_event none now r = do
  require (is_undecided r.admission) not_pending
  ok (record r { admission = admitted; admission_at_unix = now; admission_code = none })
decide_event (some code) now r = do
  require (is_undecided r.admission) not_pending
  ok (record r {
    admission = denied;
    admission_at_unix = now;
    admission_code = code;
    application = rejected;
    rejected_at_unix = now;
    rejection_code = or_code r.rejection_code code;
  })

-- What ExpirePendingAdmissions of quota.go writes.
unfoldable pub expired_event : ℕ → EventRecord → EventRecord
expired_event now r = record r {
  admission = denied;
  admission_at_unix = now;
  admission_code = some event_outside_window;
  application = rejected;
  rejected_at_unix = now;
  rejection_code = some event_outside_window;
}
