-- ===== src/Fault/Retry.antt =====
-- pkg/fault/retry.go. A `time.Duration` is its count of nanoseconds.
use tos_messenger.Base.{ℕ, zero, suc, ◌*◌, ◌-◌, ◌/◌, Bool, true, false, ltb, if◌then◌else◌}
use tos_messenger.Fault.Codes.{
  Code, Disposition, permanent, transient, refresh, approval, disposition_of, GoError, code_of,
}

abbrev pub second : ℕ
second = 1000000000

abbrev pub transient_base : ℕ
transient_base = second

abbrev pub transient_cap : ℕ
transient_cap = 5 * 60 * second

abbrev pub transient_attempts : ℕ
transient_attempts = 8

abbrev pub refresh_base : ℕ
refresh_base = 5 * second

abbrev pub refresh_cap : ℕ
refresh_cap = 15 * 60 * second

abbrev pub refresh_attempts : ℕ
refresh_attempts = 4

pub record Retry : Type 0 where
  pub disposition : Disposition
  pub allowed : Bool
  pub after : ℕ
  pub final : Bool
  pub resolve_first : Bool

-- The rounds of `backoff`'s loop that are left; a return inside the loop is its last round.
unfoldable pub backoff_loop : ℕ → ℕ → ℕ → ℕ
backoff_loop limit zero delay = if ltb limit delay then limit else delay
backoff_loop limit (suc rounds) delay =
    let rest = backoff_loop limit rounds (delay * 2) in
    if ltb (limit / 2) delay then limit else rest

unfoldable pub backoff : ℕ → ℕ → ℕ → ℕ
unfolding backoff_loop
backoff base limit attempt = backoff_loop limit (attempt - 1) base

abbrev stopped : Disposition → Retry
stopped d = record {
  disposition = d;
  allowed = false;
  after = 0;
  final = true;
  resolve_first = false;
}

-- The `switch` of `NextCode`.
unfoldable pub next_for : Disposition → ℕ → Retry
next_for transient attempt = if ltb transient_attempts attempt then stopped transient else record {
  disposition = transient;
  allowed = true;
  after = backoff transient_base transient_cap attempt;
  final = false;
  resolve_first = false;
}
next_for refresh attempt = if ltb refresh_attempts attempt then stopped refresh else record {
  disposition = refresh;
  allowed = true;
  after = backoff refresh_base refresh_cap attempt;
  final = false;
  resolve_first = true;
}
next_for approval attempt = record {
  disposition = approval;
  allowed = false;
  after = 0;
  final = false;
  resolve_first = false;
}
next_for permanent attempt = stopped permanent

-- NextCode; the attempt is not negative.
unfoldable pub next_code : Code → ℕ → Retry
next_code code attempt = next_for (disposition_of code) (if ltb attempt 1 then 1 else attempt)

-- Next
unfoldable pub next : GoError → ℕ → Retry
next e attempt = next_code (code_of e) attempt
