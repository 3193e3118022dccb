-- ===== src/Examples/Receiving.antt =====
-- An inbound event: accepted, claimed, completed, and presented again.
use tos_messenger.Base.{
  ◌+◌, ◌*◌, ◌≡◌, ◌≤◌, refl, true, none, some, List, [], ◌∷◌, ◌++◌, Bytes, codes, pos, get, set,
  is_prefixed_hash, is_hash, is_lower_hex, is_digit,
}
use tos_messenger.Canon.Encode.{digest, valid_digest, is_zero}
use tos_messenger.Canon.Hex.{hex_encode, hex_decode}
use tos_messenger.Fault.Retry.{second}
use tos_messenger.Delivery.Record.{Base64}
use tos_messenger.Delivery.Outbox.{written}
use tos_messenger.Inbound.Record.{
  Entry, admitted, validate_entry, validate_record, validate_optional, event_payload,
}
use tos_messenger.Inbound.Stored.{
  EventJson, any_kind, check_kind, claim_event, finish_event, read_event,
}
use tos_messenger.Inbound.Queue.{
  Env, Quota, accept, accept_checked, accept_checks, within_quota, accept_at, fresh_record,
  with_transition, write_record, commit_record, read_stored, read_record, amend_record, event_time,
  lease_time, claim_time, claim_for_application, complete_application, mark_read, check_kinds,
}
use tos_messenger.Inbound.Calls.{
  InboundCall, handle, result_count, results, removals, accepts, claims_event, completes,
  reads_event,
}
use tos_messenger.Inbound.Rank.{work}
use tos_messenger.Inbound.Once.{results_once}
use tos_messenger.Examples.Data.{toy_hash, toy_sum, total_byte, hex64}

instance abbrev plain_base64 : Base64
plain_base64 = record { encode = λ b. b; decode = λ b. some b; decode_encode = λ b. refl }

instance abbrev no_json : EventJson
no_json = record { event_kind = λ b. none }

abbrev quota : Quota
quota = record {
  max_pending_admissions = 256;
  max_pending_per_sender = 16;
  max_pending_bytes = 1000;
  max_pending_age = 600 * second;
}

abbrev desk : Env
desk = record { owned = true; quota = quota; fits = λ r. true; write = λ r. written }

abbrev inbound_event : Bytes
inbound_event = codes "evt_" ++ hex64

abbrev lease : Bytes
lease = codes "lease_" ++ hex64

abbrev entry : Entry
entry = record {
  event_id = inbound_event;
  sender_endpoint_id = codes "mep_" ++ hex64;
  conversation_id = codes "conv_" ++ hex64;
  payload = codes "hello";
  admission = admitted;
  received_at_unix = 100;
  expires_at_unix = 0;
  transition = none;
}

-- The event comes twice, its result too.
abbrev history : List (Env × InboundCall)
history =
    (desk, accepts entry)
    ∷ (desk, claims_event any_kind inbound_event lease (pos 110) (60 * second))
    ∷ (desk, reads_event inbound_event (pos 115))
    ∷ (desk, completes inbound_event lease (pos 120))
    ∷ (desk, accepts entry)
    ∷ (desk, completes inbound_event lease (pos 130))
    ∷ []

one_result : results history hex64 [] ≡ 1
unfolding results result_count handle accept accept_checked accept_checks within_quota accept_at
    fresh_record with_transition write_record commit_record read_stored read_record amend_record
    event_time lease_time claim_time claim_for_application complete_application mark_read
    check_kinds check_kind claim_event finish_event read_event validate_entry validate_record
    validate_optional event_payload get set is_prefixed_hash is_hash is_lower_hex is_digit digest
    valid_digest is_zero hex_encode hex_decode toy_sum total_byte
one_result = refl

results_once_example :
    (results history hex64 [] ≤ removals history hex64 [] + 1)
    × (results history hex64 [] ≤ removals history hex64 [] + work (get hex64 []))
results_once_example = results_once history hex64 []
