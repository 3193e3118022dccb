-- ===== src/Delivery/Attempts.antt =====
-- Attempts at a delivery: a sweep can make one when it is due, and the failed ones run out.
use tos_messenger.Base.{
  ◌*◌, ℕ, ◌+◌, ◌/◌, ◌≤◌, ◌≡◌, refl, Bool, true, false, ◌&&◌, some, List, [], ◌∷◌, Bytes, Result, ok,
  err, is_ok, ◌>>=◌, arith, get, Time, unix_seconds, u64,
}
use tos_messenger.Canon.Encode.{Hash}
use tos_messenger.Fault.Codes.{Code}
use tos_messenger.Fault.Retry.{Retry, second}
use tos_messenger.Delivery.Record.{
  Base64, Delivery, DeliveryError, is_pending, file_name, validate_delivery, is_attempt,
  is_delivery_id,
}
use tos_messenger.Delivery.Stored.{claim_change}
use tos_messenger.Delivery.Outbox.{
  Env, Outbox, readable, written, write_as, commit_delivery, read_file, read_delivery, revise,
  claim_request, claim_for_send, failed,
}
use tos_messenger.Delivery.Sweep.{is_due}
use tos_messenger.Delivery.Lifecycle.{settled, on_hold, claim_change-Step}
use tos_messenger.Delivery.Lifecycle

-- One attempt of a sweep that fails: its claim and its report, each in the environment of its moment.
pub record Round : Type 0 where
  pub claim_env : Env
  pub report_env : Env
  pub attempt : Bytes
  pub claimed_at : Time
  pub lease : ℕ
  pub reported_at : Time
  pub code : Code

claim_request-granted :
    (env : Env) (id attempt : Bytes) (now : Time) (seconds lease : ℕ)
    → env.owned ≡ true
    → is_delivery_id id ≡ true
    → is_attempt attempt ≡ true
    → unix_seconds now ≡ some seconds
    → 1 ≤ lease
    → lease ≤ 3600
    → claim_request env id attempt now (lease * second) ≡ ok (seconds, lease)
unfolding claim_request
claim_request-granted env id attempt now seconds lease owned named tried t lo hi =
    let whole : lease * 1000000000 / 1000000000 ≡ lease = omega arith in
    rw (owned, named, tried, t, whole) (ground arith)

claim_change-granted :
    (attempt : Bytes) (now lease : ℕ) (d : Delivery)
    → is_due now d ≡ true
    → claim_change attempt now lease d
      ≡ ok (record d { attempt_id = attempt; attempt_expires_at = u64 (now + lease) })
unfolding claim_change
claim_change-granted attempt now lease d ready = ground arith

-- While another attempt may come, at most eight have failed.
abbrev IsFew : Delivery → Type 0
IsFew d = is_pending d.state ≡ true → d.attempts ≤ 8

module _ ⦃h : Hash⦄ ⦃base64 : Base64⦄ where
  abbrev pub after_claim : Bytes → Round → Outbox × Result DeliveryError Delivery → Outbox × Bool
  after_claim id r (o, err e) = (o, false)
  after_claim id r (o, ok d) =
      let (o', result) = failed r.report_env id r.attempt r.code r.reported_at o in
      (o', is_ok result)

  -- Whether both the claim and the report of a failure succeed.
  unfoldable pub attempt_fails : Bytes → Round → Outbox → Outbox × Bool
  attempt_fails id r o =
      after_claim id r (claim_for_send r.claim_env id r.attempt r.claimed_at r.lease o)

  -- The same for one attempt after the other.
  unfoldable pub all_fail : Bytes → List Round → Outbox → Bool
  all_fail id [] o = true
  all_fail id (r ∷ rs) o = (attempt_fails id r o).1 && all_fail id rs (attempt_fails id r o).0

  revise-written :
      {A : Type 0} (env : Env) (id : Bytes) (r : Result DeliveryError A)
      (change : A → Delivery → Result DeliveryError Delivery) (o : Outbox) (d : Delivery) (a : A)
      (e : Delivery)
      → r ≡ ok a
      → get (file_name id) o ≡ some (readable d)
      → validate_delivery d ≡ ok tt
      → change a d ≡ ok e
      → ((x : Delivery) → env.write x ≡ written)
      → (revise env id r change o).1 ≡ ok e
  unfolding revise read_delivery read_file commit_delivery write_as
  revise-written env id r change o d a e asked there valid changed writes =
      rw asked (rw there (rw (valid, ◌>>=◌) (rw changed (rw (writes e) refl))))

  -- A delivery that `Due` selects can be claimed at that moment, under any attempt: the sweep that
  -- owns the directory obtains it with a lease from now on.
  pub claim-is_due :
      (env : Env) (id attempt : Bytes) (now : Time) (seconds lease : ℕ) (o : Outbox) (d : Delivery)
      → env.owned ≡ true
      → is_delivery_id id ≡ true
      → is_attempt attempt ≡ true
      → unix_seconds now ≡ some seconds
      → 1 ≤ lease
      → lease ≤ 3600
      → get (file_name id) o ≡ some (readable d)
      → validate_delivery d ≡ ok tt
      → is_due seconds d ≡ true
      → ((e : Delivery) → env.write e ≡ written)
      → (claim_for_send env id attempt now (lease * second) o).1
        ≡ ok (record d { attempt_id = attempt; attempt_expires_at = u64 (seconds + lease) })
  unfolding claim_for_send
  claim-is_due env id attempt now seconds lease o d owned named tried t lo hi there valid ready
        writes =
      revise-written env id _ (λ a. claim_change attempt a.0 a.1) o d (seconds, lease) _
        (claim_request-granted env id attempt now seconds lease owned named tried t lo hi) there
        valid (claim_change-granted attempt seconds lease d ready) writes
