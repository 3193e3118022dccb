-- ===== src/Examples/Failures.antt =====
-- Examples on failures and what a peer sees of them.
use tos_messenger.Base.{not, ◌&&◌, ◌≡◌, refl, ◌-◌, ◌*◌, ◌^◌, min, if◌then◌else◌, ok}
use tos_messenger.Fault.Codes.{
  unreachable, rate_limited, rejected, registry, disposition_of, peer_visible,
}
use tos_messenger.Fault.Retry.{next_code, next_for, backoff, second, transient_cap}
use tos_messenger.Fault.Response.{peer_code, validate_response}
use tos_messenger.Fault.Visibility.{
  next_code_lem, is_waiting, retried, delayed, is_refresh, validate_response-peer_code, backoff_lem,
}

next_code_lem_example :
    let r = next_code unreachable 3 in
    let d = disposition_of unreachable in
    (r.disposition ≡ d)
    × (r.allowed ≡ retried d 3)
    × (r.final ≡ (not r.allowed && not (is_waiting d)))
    × (r.after ≡ (if r.allowed then delayed d 3 else 0))
    × (r.resolve_first ≡ (r.allowed && is_refresh d))
next_code_lem_example = next_code_lem unreachable 3

backoff_lem_example : backoff second transient_cap 20 ≡ min transient_cap (second * 2 ^ (20 - 1))
backoff_lem_example = backoff_lem second transient_cap 20

-- The third attempt waits for four seconds.
retry_runs : (next_code unreachable 3).after ≡ 4 * second
unfolding next_code next_for disposition_of registry backoff
retry_runs = refl

validate_response-peer_code_example :
    (validate_response (peer_code rate_limited 90000) ≡ ok tt)
    × ((peer_code rate_limited 90000).code
        ≡ (if peer_visible rate_limited then rate_limited else rejected))
validate_response-peer_code_example = validate_response-peer_code rate_limited 90000
