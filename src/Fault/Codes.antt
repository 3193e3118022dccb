-- ===== src/Fault/Codes.antt =====
-- pkg/fault/fault.go. A `Code` is a Go string; `unclassified` stands for every string that is not a
-- key of the registry.
use tos_messenger.Base.{Bool, true, false, Option, none, some, Bytes}

pub data Disposition : Type 0 where
  permanent transient refresh approval : Disposition

pub data Code : Type 0 where
  network_mismatch delegation_uncommitted delegation_expired agent_tombstoned device_revoked : Code
  signature_invalid sender_mismatch : Code
  descriptor_expired descriptor_unbound locator_stale no_route_advertised : Code
  unreachable timeout rate_limited oversized : Code
  not_authentic replayed session_expired suite_unsupported : Code
  class_not_delegated admission_required unknown_event_kind not_a_room_member content_too_large :
      Code
  payload_malformed event_outside_window approval_required : Code
  relay_full retention_exceeded quota_exceeded : Code
  internal rejected : Code
  unclassified : Bytes → Code

-- spec
pub record Spec : Type 0 where
  pub disposition : Disposition
  pub peer_visible : Bool
  pub retry_hint : Bool

abbrev classified : Disposition → Bool → Bool → Option Spec
classified d visible hint =
    some (record { disposition = d; peer_visible = visible; retry_hint = hint })

-- registry
unfoldable pub registry : Code → Option Spec
registry network_mismatch = classified permanent true false
registry delegation_uncommitted = classified refresh true false
registry delegation_expired = classified refresh true false
registry agent_tombstoned = classified permanent true false
registry device_revoked = classified permanent true false
registry signature_invalid = classified permanent true false
registry sender_mismatch = classified permanent true false
registry descriptor_expired = classified refresh true false
registry descriptor_unbound = classified permanent true false
registry locator_stale = classified refresh false false
registry no_route_advertised = classified permanent true false
registry unreachable = classified transient false false
registry timeout = classified transient false false
registry rate_limited = classified transient true true
registry oversized = classified permanent true false
registry not_authentic = classified permanent false false
registry replayed = classified permanent false false
registry session_expired = classified refresh true false
registry suite_unsupported = classified permanent true false
registry class_not_delegated = classified permanent true false
registry admission_required = classified refresh true true
registry unknown_event_kind = classified permanent true false
registry not_a_room_member = classified refresh true false
registry content_too_large = classified permanent true false
registry payload_malformed = classified permanent true false
registry event_outside_window = classified permanent true false
registry approval_required = classified approval false false
registry relay_full = classified transient true true
registry retention_exceeded = classified permanent true false
registry quota_exceeded = classified transient true true
registry internal = classified transient false false
registry rejected = classified permanent true false
registry (unclassified name) = none

-- Known
unfoldable pub known : Code → Bool
known code = elim (registry code) [ some s ↦ true | none ↦ false ]

-- DispositionOf
unfoldable pub disposition_of : Code → Disposition
disposition_of code = elim (registry code) [ some s ↦ s.disposition | none ↦ permanent ]

-- PeerVisible
unfoldable pub peer_visible : Code → Bool
peer_visible code = elim (registry code) [ some s ↦ s.peer_visible | none ↦ false ]

-- A Go error: a fault with its local detail and its cause, an error that wraps another one, or any
-- other error, by its message.
mutual
  pub data GoError : Type 0 where
    fault : Fault → GoError
    wrapped : Bytes → GoError → GoError
    plain : Bytes → GoError

  pub data Fault : Type 0 where
    new_fault : Code → Bytes → Fault
    caused : Code → Bytes → GoError → Fault

fault_code : Fault → Code
fault_code (new_fault code detail) = code
fault_code (caused code detail cause) = code

-- Of: the first fault of the chain.
unfoldable pub fault_of : GoError → Option Fault
fault_of (fault f) = some f
fault_of (wrapped message e) = fault_of e
fault_of (plain message) = none

-- CodeOf
unfoldable pub code_of : GoError → Code
unfolding fault_code
code_of e = elim (fault_of e) [ some f ↦ fault_code f | none ↦ internal ]
