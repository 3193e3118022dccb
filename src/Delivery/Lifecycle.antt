-- ===== src/Delivery/Lifecycle.antt =====
-- What a delivery promises, without its record: a life of waiting, holding and settling. The
-- operations of the outbox take a record through it step by step.
use tos_messenger.Base.{
  ◌==◌, ok-injective, ◌/◌, require-ok, ℕ, ◌+◌, ◌≤◌, ◌≡◌, refl, sym, ap, ◌∙◌, subst, true, ◌&&◌,
  ◌||◌, not, ltb, leb, Bytes, eq_bytes, [], ok, require, refuse_if, >>=-eq-ok, ok-injective,
  require-ok, Bool-cases, ◌⊎◌, inl, inr, arith, u32, u64,
}
use tos_messenger.Fault.Codes.{Code}
use tos_messenger.Fault.Retry.{Retry, next_code}
use tos_messenger.Fault.Visibility.{is_waiting, next_code_lem}
use tos_messenger.Canon.Encode.{Hash}
use tos_messenger.Delivery.Seal.{Sealing, seal_change}
use tos_messenger.Delivery.Record.{
  Base64, other_session, already_sealed, session_failed, is_empty, Delivery, DeliveryState, pending,
  held, delivered, abandoned, other_state, is_pending, is_held, not_pending, lease_mismatch,
  expired_while_held,
}
use tos_messenger.Delivery.Stored.{
  claim_change, failed_change, settle_change, resume_change, reschedule, holds_attempt, code_field,
}
use tos_messenger.Delivery.Sweep.{expired_delivery, is_overdue}

-- Where a delivery stands, with the number of failed attempts while another one may come.
pub data Status : Type 0 where
  waiting on_hold : ℕ → Status
  settled : DeliveryState → Status

abbrev pub status_of : DeliveryState → ℕ → Status
status_of pending n = waiting n
status_of held n = on_hold n
status_of s n = settled s

abbrev pub status : Delivery → Status
status d = status_of d.state d.attempts

-- The counter is a uint32. Another attempt comes after at most eight failures.
pub data Step : Status → Status → Type 0 where
  claims seals : (n : ℕ) → Step (waiting n) (waiting n)
  retries : (n m : ℕ) → m ≡ u32 (n + 1) → m ≤ 8 → Step (waiting n) (waiting m)
  holds : (n m : ℕ) → Step (waiting n) (on_hold m)
  resumes : (n : ℕ) → Step (on_hold n) (waiting n)
  settles :
      (n : ℕ) (s : DeliveryState) → (s ≡ delivered) ⊎ (s ≡ abandoned) → Step (waiting n) (settled s)
  releases :
      (n : ℕ) (s : DeliveryState) → (s ≡ delivered) ⊎ (s ≡ abandoned) → Step (on_hold n) (settled s)

pub status_pending : (s : DeliveryState) (n : ℕ) → is_pending s ≡ true → status_of s n ≡ waiting n
status_pending pending n h = refl
status_pending _ n h = cc

status_held : (s : DeliveryState) (n : ℕ) → is_held s ≡ true → status_of s n ≡ on_hold n
status_held held n h = refl
status_held _ n h = cc

ends : (s : DeliveryState) (n : ℕ) → (s ≡ delivered) ⊎ (s ≡ abandoned) → status_of s n ≡ settled s
ends pending n h = absurd (ground arith)
ends held n h = absurd (ground arith)
ends delivered n h = refl
ends abandoned n h = refl
ends (other_state x) n h = refl

Step-settle :
    (s t : DeliveryState) (n : ℕ)
    → (is_pending s || is_held s) ≡ true
    → (t ≡ delivered) ⊎ (t ≡ abandoned)
    → Step (status_of s n) (status_of t n)
Step-settle pending t n h e = rw (ends t n e) (settles n t e)
Step-settle held t n h e = rw (ends t n e) (releases n t e)
Step-settle delivered t n h e = cc
Step-settle abandoned t n h e = cc
Step-settle (other_state x) t n h e = cc

pub claim_change-Step :
    (attempt : Bytes) (now lease : ℕ) (d d' : Delivery)
    → claim_change attempt now lease d ≡ ok d'
    → Step (status d) (status d')
unfolding claim_change
claim_change-Step attempt now lease d d' k =
    let (_, e1, k1) = >>=-eq-ok (require (is_pending d.state) not_pending) _ k in
    let (_, e2, k2) =
      >>=-eq-ok
        (refuse_if (ltb now d.attempt_expires_at && not (eq_bytes d.attempt_id attempt))
          lease_mismatch)
        _ k1 in
    let w = status_pending d.state d.attempts (require-ok _ not_pending e1) in
    rw (← ap status (ok-injective k2), w) (claims d.attempts)

seal_change-kept :
    ⦃h : Hash⦄ ⦃base64 : Base64⦄ (s : Sealing) (now : ℕ) (d d' : Delivery)
    → seal_change s now d ≡ ok d'
    → (is_pending d.state ≡ true) × (status d' ≡ status d)
unfolding seal_change
seal_change-kept s now d d' k =
    let (_, e1, k1) = >>=-eq-ok (require (is_pending d.state) not_pending) _ k in
    let (_, e2, k2) = >>=-eq-ok (require (eq_bytes d.session_id s.session_id) other_session) _ k1 in
    let (_, e3, k3) =
      >>=-eq-ok (require (eq_bytes d.attempt_id s.attempt_id) lease_mismatch) _ k2 in
    let (_, e4, k4) =
      >>=-eq-ok
        (refuse_if (not (d.attempt_expires_at == 0) && leb d.attempt_expires_at now) lease_mismatch)
        _ k3 in
    let (_, e5, k5) = >>=-eq-ok (require (is_empty d.ciphertext_base64) already_sealed) _ k4 in
    let (_, e6, k6) = >>=-eq-ok (require s.advanced session_failed) _ k5 in
    (require-ok _ not_pending e1, rw (← ok-injective k6) refl)

pub seal_change-Step :
    ⦃h : Hash⦄ ⦃base64 : Base64⦄ (s : Sealing) (now : ℕ) (d d' : Delivery)
    → seal_change s now d ≡ ok d'
    → Step (status d) (status d')
seal_change-Step s now d d' k =
    let (waits, same) = seal_change-kept s now d d' k in
    rw (same, status_pending d.state d.attempts waits) (seals d.attempts)

failed-Step :
    (n m : ℕ) (d : Delivery) (r : Retry) (now : ℕ)
    → m ≡ u32 (n + 1)
    → d.attempts ≡ m
    → is_pending d.state ≡ true
    → (r.allowed ≡ true → m ≤ 8)
    → Step (waiting n) (status (reschedule r now d))
unfolding reschedule
failed-Step n m d r now e same p few =
    let gone : Step (waiting n) (settled abandoned) = settles n abandoned (inr refl) in
    elim (Bool-cases (leb d.expires_at_unix now)) [
      | inl a ↦ rw a gone
      | inr a ↦ elim (Bool-cases r.allowed) [
        | inl b ↦ elim (Bool-cases (leb d.expires_at_unix (u64 (now + r.after / 1000000000)))) [
          | inl c ↦ rw (a, b, c) gone
          | inr c ↦ rw (a, b, c, status_pending d.state d.attempts p, same) (retries n m e (few b))
        ]
        | inr b ↦ elim (Bool-cases (is_waiting r.disposition)) [
          | inl c ↦ rw (a, b, c) (holds n d.attempts)
          | inr c ↦ rw (a, b, c) gone
        ]
      ]
    ]

-- A retry that is allowed is the eighth at most.
few_attempts : (code : Code) (m : ℕ) → (next_code code m).allowed ≡ true → m ≤ 8
few_attempts code m h = let (_, e, _, _, _) = next_code_lem code m in ground (arith, sym e ∙ h)

pub failed_change-Step :
    (attempt : Bytes) (code : Code) (now : ℕ) (d d' : Delivery)
    → failed_change attempt code now d ≡ ok d'
    → Step (status d) (status d')
unfolding failed_change
failed_change-Step attempt code now d d' k =
    let (_, e1, k1) = >>=-eq-ok (require (is_pending d.state) not_pending) _ k in
    let (_, e2, k2) = >>=-eq-ok (require (holds_attempt d attempt) lease_mismatch) _ k1 in
    let p = require-ok _ not_pending e1 in
    let m = u32 (d.attempts + 1) in
    let tried = record d {
      attempts = m;
      attempt_id = [];
      attempt_expires_at = 0;
      last_code = code_field code;
    } in
    subst (λ x. Step (status d) (status x)) (ok-injective k2)
      (rw (status_pending d.state d.attempts p)
        (failed-Step d.attempts m tried (next_code code m) now refl refl p (few_attempts code m)))

pub settle_change-Step :
    (attempt : Bytes) (s : DeliveryState) (now : ℕ) (d d' : Delivery)
    → (s ≡ delivered) ⊎ (s ≡ abandoned)
    → settle_change attempt s now d ≡ ok d'
    → Step (status d) (status d')
unfolding settle_change
settle_change-Step attempt s now d d' end k =
    let (_, e1, k1) = >>=-eq-ok (require (is_pending d.state || is_held d.state) not_pending) _ k in
    let (_, e2, k2) =
      >>=-eq-ok (refuse_if (not (is_empty attempt) && not (holds_attempt d attempt)) lease_mismatch)
        _ k1 in
    subst (λ x. Step (status d) (status x)) (ok-injective k2)
      (Step-settle d.state s d.attempts (require-ok _ not_pending e1) end)

pub resume_change-Step :
    (now : ℕ) (d d' : Delivery) → resume_change now d ≡ ok d' → Step (status d) (status d')
unfolding resume_change
resume_change-Step now d d' k =
    let (_, e1, k1) = >>=-eq-ok (require (is_held d.state) not_pending) _ k in
    let (_, e2, k2) = >>=-eq-ok (refuse_if (leb d.expires_at_unix now) expired_while_held) _ k1 in
    rw (← ap status (ok-injective k2), status_held d.state d.attempts (require-ok _ not_pending e1))
      (resumes d.attempts)

pub expired_delivery-Step :
    (now : ℕ) (d : Delivery)
    → is_overdue now d ≡ true
    → Step (status d) (status (expired_delivery now d))
unfolding expired_delivery
expired_delivery-Step now d h = Step-settle d.state abandoned d.attempts (ground arith) (inr refl)
