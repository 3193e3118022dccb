-- ===== src/Examples/Delivering.antt =====
-- A message in the outbox: enqueued, claimed, and failed.
use tos_messenger.Base.{
  ◌*◌, ◌≡◌, refl, arith, true, some, List, [], ◌∷◌, ◌++◌, Bytes, codes, ok, pos, get, set,
  is_prefixed_hash, is_hash, is_lower_hex, is_digit,
}
use tos_messenger.Canon.Encode.{digest, valid_digest, is_zero}
use tos_messenger.Canon.Hex.{hex_encode, hex_decode}
use tos_messenger.Fault.Codes.{timeout}
use tos_messenger.Fault.Retry.{second}
use tos_messenger.Delivery.Record.{
  Base64, Delivery, Outbound, validate_outbound, validate_delivery, payload_of, ciphertext_of,
}
use tos_messenger.Delivery.Stored.{claim_change}
use tos_messenger.Delivery.Outbox.{
  Env, Outbox, readable, written, enqueue, enqueue_checked, enqueue_at, created, request_name,
  fresh_delivery, write_as, commit_delivery, read_file, read_delivery, revise, claim_request,
  claim_for_send,
}
use tos_messenger.Delivery.Calls.{Call, run, enqueues, claims, fails, delivers, resumes}
use tos_messenger.Delivery.Lease.{claim_exclusive}
use tos_messenger.Delivery.Attempts.{Round, claim-is_due}
use tos_messenger.Base.{remove, err}
use tos_messenger.Prune.{
  Removal, min_claim_retention, prune_request, sweep, sweep_names, synced_after,
}
use tos_messenger.Delivery.Swept.{prune_deliveries, prune_from}
use tos_messenger.Delivery.Seal.{Sealing, seal_change}
use tos_messenger.Delivery.Record.{delivered, lease_mismatch, already_sealed}
use tos_messenger.Examples.Data.{toy_hash, toy_sum, total_byte, hex64}

instance abbrev identity_base64 : Base64
identity_base64 = record { encode = λ b. b; decode = λ b. some b; decode_encode = λ b. refl }

abbrev own : Env
own = record { owned = true; write = λ d. written }

abbrev event : Bytes
event = codes "evt_" ++ hex64

abbrev attempt : Bytes
attempt = codes "send_" ++ hex64

abbrev other_attempt : Bytes
other_attempt = codes "send_other"

abbrev request : Outbound
request = record {
  delivery_id = [];
  event_id = event;
  session_id = codes "ses_" ++ hex64;
  recipient_endpoint_id = codes "mep_" ++ hex64;
  recipient_device_id = [];
  conversation_id = codes "conv_" ++ hex64;
  payload = codes "hello";
  created_at_unix = 100;
  expires_at_unix = 100000;
}

abbrev first : Delivery
first = fresh_delivery request

abbrev box : Outbox
box = (hex64, readable first) ∷ []

abbrev claimed : Delivery
claimed = record first { attempt_id = attempt; attempt_expires_at = 260 }

enqueued : (enqueue own request []).0 ≡ box
unfolding enqueue enqueue_checked enqueue_at created request_name fresh_delivery write_as
    validate_outbound get set is_prefixed_hash is_hash is_lower_hex is_digit digest hex_encode
    toy_sum total_byte
enqueued = refl

claim_runs :
    claim_for_send own event attempt (pos 200) (60 * second) box
    ≡ ((hex64, readable claimed) ∷ [], ok claimed)
unfolding claim_for_send revise claim_request claim_change read_delivery read_file commit_delivery
    write_as fresh_delivery validate_delivery payload_of ciphertext_of valid_digest is_zero get set
    is_prefixed_hash is_hash is_lower_hex is_digit digest hex_encode hex_decode toy_sum total_byte
claim_runs = refl

abbrev others : List (Env × Call)
others =
    (own, enqueues request)
    ∷ (own, claims event other_attempt (pos 259) (60 * second))
    ∷ (own, fails event other_attempt timeout (pos 210))
    ∷ (own, delivers event other_attempt (pos 220))
    ∷ (own, resumes event (pos 230))
    ∷ []

claim_exclusive_example :
    (get hex64 (run others ((hex64, readable claimed) ∷ [])) ≡ some (readable claimed))
    × (claimed.attempt_id ≡ attempt)
unfolding fresh_delivery
claim_exclusive_example =
    claim_exclusive own event attempt (pos 200) (60 * second) box ((hex64, readable claimed) ∷ [])
      claimed others claim_runs refl

abbrev rounds : List Round
rounds =
    record {
      claim_env = own;
      report_env = own;
      attempt = attempt;
      claimed_at = pos 200;
      lease = 60 * second;
      reported_at = pos 210;
      code = timeout;
    }
    ∷ record {
      claim_env = own;
      report_env = own;
      attempt = attempt;
      claimed_at = pos 300;
      lease = 60 * second;
      reported_at = pos 310;
      code = timeout;
    }
    ∷ []

claim-is_due_example : (claim_for_send own event attempt (pos 200) (60 * second) box).1 ≡ ok claimed
unfolding fresh_delivery get validate_delivery payload_of ciphertext_of valid_digest is_zero
    is_prefixed_hash is_hash is_lower_hex is_digit digest hex_encode hex_decode toy_sum total_byte
claim-is_due_example =
    claim-is_due own event attempt (pos 200) 200 60 box first refl refl refl refl (omega arith)
      (omega arith) refl refl refl (λ d. refl)

-- A settled delivery is pruned when its retention is over; a pending one stays, whatever its age.
abbrev settled_box : Outbox
settled_box =
    (hex64, readable (record first { state = delivered; settled_at_unix = 300 }))
    ∷ (codes "b", readable first)
    ∷ []

abbrev obeyed : Removal
obeyed = record { removes = λ name. true; synced = true }

pruned :
    (prune_deliveries own obeyed (pos 2592300) min_claim_retention settled_box).0
    ≡ (codes "b", readable first) ∷ []
unfolding prune_deliveries prune_from prune_request sweep sweep_names synced_after read_file
    fresh_delivery validate_delivery payload_of ciphertext_of valid_digest is_zero get remove
    is_prefixed_hash is_hash is_lower_hex is_digit digest hex_encode hex_decode toy_sum total_byte
pruned = refl

not_pruned_early :
    (prune_deliveries own obeyed (pos 2592299) min_claim_retention settled_box).0 ≡ settled_box
unfolding prune_deliveries prune_from prune_request sweep sweep_names synced_after read_file
    fresh_delivery validate_delivery payload_of ciphertext_of valid_digest is_zero get remove
    is_prefixed_hash is_hash is_lower_hex is_digit digest hex_encode hex_decode toy_sum total_byte
not_pruned_early = refl

-- The attempt that holds the delivery seals it, once.
abbrev sealing : Sealing
sealing = record {
  session_id = codes "ses_" ++ hex64;
  attempt_id = attempt;
  ciphertext = codes "secret";
  state_valid = true;
  advanced = true;
}

abbrev sealed : Delivery
sealed = record claimed {
  ciphertext_base64 = codes "secret";
  ciphertext_digest = digest (codes "secret");
}

seal_runs : seal_change sealing 259 claimed ≡ ok sealed
unfolding seal_change fresh_delivery
seal_runs = refl

seal_refuses_late : seal_change sealing 260 claimed ≡ err lease_mismatch
unfolding seal_change fresh_delivery
seal_refuses_late = refl

seal_refuses_again : seal_change sealing 259 sealed ≡ err already_sealed
unfolding seal_change fresh_delivery
seal_refuses_again = refl
