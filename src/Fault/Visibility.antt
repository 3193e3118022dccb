-- ===== src/Fault/Visibility.antt =====
-- What the retry schedule and a peer's view of a failure promise.
use native.Mathlib.Nat.{pow-suc}
use tos_messenger.Base.{
  not, ◌&&◌, ltb→lt, Bool-cases, ℕ, zero, suc, ◌*◌, ◌-◌, ◌/◌, ◌^◌, ◌≤◌, ◌<◌, ◌≡◌, inl, inr, refl,
  Bool, true, false, ltb, leb, if◌then◌else◌, arith, ok, min,
}
use tos_messenger.Fault.Codes.{
  Code, Disposition, permanent, transient, refresh, approval, rejected, registry, peer_visible,
  disposition_of,
}
use tos_messenger.Fault.Retry.{
  next_for, backoff, backoff_loop, next_code, transient_base, transient_cap, transient_attempts,
  refresh_base, refresh_cap, refresh_attempts,
}
use tos_messenger.Fault.Response.{peer_code, validate_response}

-- Whatever a peer is told is a response that `ValidateResponse` accepts, and it names the code
-- itself when a peer may see that, and `rejected` otherwise.
pub validate_response-peer_code :
    (code : Code) (seconds : ℕ)
    → (validate_response (peer_code code seconds) ≡ ok tt)
      × ((peer_code code seconds).code ≡ (if peer_visible code then code else rejected))
unfolding validate_response peer_code peer_visible registry
validate_response-peer_code code seconds = ground arith

pow-pos : (n : ℕ) → 0 < 2 ^ n
pow-pos zero = omega arith
pow-pos (suc n) = rw pow-suc (omega (arith, pow-pos n))

doubled : (delay n : ℕ) → delay * 2 ^ suc n ≡ delay * 2 * 2 ^ n
doubled delay n = rw pow-suc (omega arith)

grown : (limit delay n : ℕ) → limit / 2 < delay → min limit (delay * 2 ^ suc n) ≡ limit
grown limit delay n h =
    let p : delay * 2 ≤ delay * 2 * 2 ^ n = grind (arith, pow-pos n) in rw doubled (omega arith)

backoff_loop-min :
    (limit rounds delay : ℕ) → backoff_loop limit rounds delay ≡ min limit (delay * 2 ^ rounds)
unfolding backoff_loop
backoff_loop-min limit zero delay = ground arith
backoff_loop-min limit (suc rounds) delay = elim (Bool-cases (ltb (limit / 2) delay)) [
  | inl e ↦ rw (e, grown limit delay rounds (ltb→lt _ _ e)) refl
  | inr e ↦ rw (e, doubled) (backoff_loop-min limit rounds (delay * 2))
]

-- The delay before attempt n doubles n - 1 times from the base, and stops at the cap.
pub backoff_lem :
    (base limit attempt : ℕ) → backoff base limit attempt ≡ min limit (base * 2 ^ (attempt - 1))
unfolding backoff
backoff_lem base limit attempt = backoff_loop-min limit (attempt - 1) base

abbrev pub is_waiting : Disposition → Bool
is_waiting approval = true
is_waiting _ = false

-- Whether a timer may try again, of the class of a failure and the number of the attempt.
abbrev pub retried : Disposition → ℕ → Bool
retried transient attempt = leb attempt transient_attempts
retried refresh attempt = leb attempt refresh_attempts
retried _ attempt = false

-- The delay before a retry of a class, from the number of the attempt.
abbrev pub delayed : Disposition → ℕ → ℕ
delayed transient attempt = min transient_cap (transient_base * 2 ^ (attempt - 1))
delayed refresh attempt = min refresh_cap (refresh_base * 2 ^ (attempt - 1))
delayed _ attempt = 0

abbrev pub is_refresh : Disposition → Bool
is_refresh refresh = true
is_refresh _ = false

-- A timer retries exactly the transient failures up to the eighth attempt and the refreshable ones
-- up to the fourth; a failure is final exactly when it is neither retried nor waiting for a decision.
-- The delay before a retry doubles with every attempt from the base of its class and stops at the
-- cap of its class, and there is none without a retry. The peer is resolved again first exactly
-- before a retry of a refreshable failure.
pub next_code_lem :
    (code : Code) (attempt : ℕ)
    → let r = next_code code attempt in
      let d = disposition_of code in
      (r.disposition ≡ d)
      × (r.allowed ≡ retried d attempt)
      × (r.final ≡ (not r.allowed && not (is_waiting d)))
      × (r.after ≡ (if r.allowed then delayed d attempt else 0))
      × (r.resolve_first ≡ (r.allowed && is_refresh d))
unfolding next_code next_for
next_code_lem code attempt = next_for_lem (disposition_of code)
  where
    from_one : (if ltb attempt 1 then 1 else attempt) - 1 ≡ attempt - 1
    from_one = ground arith

    same_delay :
        (base limit : ℕ)
        → backoff base limit (if ltb attempt 1 then 1 else attempt)
          ≡ min limit (base * 2 ^ (attempt - 1))
    same_delay base limit = rw (backoff_lem, from_one) refl

    next_for_lem :
        (d : Disposition)
        → let r = next_for d (if ltb attempt 1 then 1 else attempt) in
          (r.disposition ≡ d)
          × (r.allowed ≡ retried d attempt)
          × (r.final ≡ (not r.allowed && not (is_waiting d)))
          × (r.after ≡ (if r.allowed then delayed d attempt else 0))
          × (r.resolve_first ≡ (r.allowed && is_refresh d))
    next_for_lem transient = ground (arith, same_delay transient_base transient_cap)
    next_for_lem refresh = ground (arith, same_delay refresh_base refresh_cap)
    next_for_lem approval = ground arith
    next_for_lem permanent = ground arith
