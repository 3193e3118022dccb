-- ===== src/Delivery/Barred.antt =====
-- What the operations on a delivery refuse while another attempt holds it, and what they do not touch.
use tos_messenger.Base.{
  ℕ, ◌/◌, ◌≡◌, ◌≢◌, refl, sym, ap, ◌∙◌, Bool, true, false, ◌&&◌, ◌||◌, not, Option, none, some, ltb,
  Bytes, eq_bytes, eq_bytes→eq, Result, ok, err, >>=-eq-ok, require, refuse_if, ok-injective,
  require-ok, refuse_if-ok, Bool-cases, ◌⊎◌, inl, inr, arith, get, Time, unix_seconds,
}
use tos_messenger.Canon.Encode.{Hash}
use tos_messenger.Fault.Codes.{Code}
use tos_messenger.Fault.Retry.{second}
use tos_messenger.Delivery.Record.{
  Base64, Delivery, DeliveryState, DeliveryError, Outbound, is_pending, is_held, is_empty,
  not_pending, lease_mismatch, not_owned, bad_delivery, bad_attempt, bad_lease, is_attempt,
  is_delivery_id, other_session,
}
use tos_messenger.Delivery.Stored.{
  claim_change, failed_change, settle_change, resume_change, holds_attempt,
}
use tos_messenger.Delivery.Outbox.{
  Env, Outbox, File, readable, claim_request, time_of, read_file, enqueue_checked, enqueue_at,
  request_name, created, fresh_delivery,
}
use tos_messenger.Prune.{PruneError, Removal, SweptFrom-sweep}
use tos_messenger.Delivery.Seal.{Sealing, seal_change}
use tos_messenger.Delivery.Swept.{is_ended, prunable, prune_from}
use tos_messenger.Delivery.Refines.{read_file-ok}
use tos_messenger.Delivery.Effects.{readable-injective, get-write_as}

abbrev pub is_before : ℕ → Option ℕ → Bool
is_before until none = true
is_before until (some n) = ltb n until

none-readable : {d : Delivery} → ◌≡◌ {A = Option File} none (some (readable d)) → ⊥
none-readable e = cc

pub claim_change-taken :
    (attempt : Bytes) (now lease : ℕ) (d e : Delivery)
    → not (eq_bytes d.attempt_id attempt) ≡ true
    → ltb now d.attempt_expires_at ≡ true
    → claim_change attempt now lease d ≢ ok e
unfolding claim_change
claim_change-taken attempt now lease d e other before made =
    let (_, e1, k1) = >>=-eq-ok (require (is_pending d.state) not_pending) _ made in
    let (_, e2, k2) =
      >>=-eq-ok
        (refuse_if (ltb now d.attempt_expires_at && not (eq_bytes d.attempt_id attempt))
          lease_mismatch)
        _ k1 in
    let free = refuse_if-ok _ lease_mismatch e2 in ground arith

pub claim_change-held :
    (attempt : Bytes) (now lease : ℕ) (d e : Delivery)
    → claim_change attempt now lease d ≡ ok e
    → (is_pending e.state ≡ true) × (e.attempt_id ≡ attempt)
unfolding claim_change
claim_change-held attempt now lease d e made =
    let (_, e1, k1) = >>=-eq-ok (require (is_pending d.state) not_pending) _ made in
    let (_, e2, k2) =
      >>=-eq-ok
        (refuse_if (ltb now d.attempt_expires_at && not (eq_bytes d.attempt_id attempt))
          lease_mismatch)
        _ k1 in
    let w = ok-injective k2 in (rw (← w) (require-ok _ not_pending e1), rw (← w) refl)

pub failed_change-taken :
    (attempt : Bytes) (code : Code) (now : ℕ) (d e : Delivery)
    → not (eq_bytes d.attempt_id attempt) ≡ true
    → failed_change attempt code now d ≢ ok e
unfolding failed_change
failed_change-taken attempt code now d e other made =
    let (_, e1, k1) = >>=-eq-ok (require (is_pending d.state) not_pending) _ made in
    let (_, e2, k2) = >>=-eq-ok (require (holds_attempt d attempt) lease_mismatch) _ k1 in
    let held = require-ok _ lease_mismatch e2 in ground arith

pub settle_change-taken :
    (attempt : Bytes) (s : DeliveryState) (now : ℕ) (d e : Delivery)
    → not (is_empty attempt) && not (eq_bytes d.attempt_id attempt) ≡ true
    → settle_change attempt s now d ≢ ok e
unfolding settle_change
settle_change-taken attempt s now d e other made =
    let (_, e1, k1) =
      >>=-eq-ok (require (is_pending d.state || is_held d.state) not_pending) _ made in
    let (_, e2, k2) =
      >>=-eq-ok (refuse_if (not (is_empty attempt) && not (holds_attempt d attempt)) lease_mismatch)
        _ k1 in
    let free = refuse_if-ok _ lease_mismatch e2 in ground arith

pending_not_held : (s : DeliveryState) → is_pending s ≡ true → is_held s ≡ false
pending_not_held DeliveryState.pending h = refl
pending_not_held _ h = cc

pub resume_change-pending :
    (now : ℕ) (d e : Delivery) → is_pending d.state ≡ true → resume_change now d ≢ ok e
unfolding resume_change
resume_change-pending now d e waits made =
    let (_, e1, k1) = >>=-eq-ok (require (is_held d.state) not_pending) _ made in
    let held = require-ok _ not_pending e1 in cc (pending_not_held d.state waits)

time_of-before :
    (until : ℕ) (t : Option ℕ) (n : ℕ)
    → is_before until t ≡ true
    → time_of t ≡ ok n
    → ltb n until ≡ true
time_of-before until none n before h = cc
time_of-before until (some m) n before h = rw (← ok-injective h) before

pub claim_request-before :
    (env : Env) (id attempt : Bytes) (now : Time) (lease until : ℕ) (a : ℕ × ℕ)
    → is_before until (unix_seconds now) ≡ true
    → claim_request env id attempt now lease ≡ ok a
    → ltb a.0 until ≡ true
unfolding claim_request
claim_request-before env id attempt now lease until a before h =
    let (_, e1, k1) = >>=-eq-ok (require env.owned not_owned) _ h in
    let (_, e2, k2) = >>=-eq-ok (require (is_delivery_id id) bad_delivery) _ k1 in
    let (_, e3, k3) = >>=-eq-ok (require (is_attempt attempt) bad_attempt) _ k2 in
    let (seconds, e4, k4) = >>=-eq-ok (time_of (unix_seconds now)) _ k3 in
    let (_, e5, k5) =
      >>=-eq-ok (refuse_if (ltb (lease / second) 1 || ltb 3600 (lease / second)) bad_lease) _ k4 in
    rw (← ok-injective k5) (time_of-before until (unix_seconds now) seconds before e4)

waiting_not_ended : (s : DeliveryState) → is_pending s ≡ true → is_ended s ≢ true
waiting_not_ended DeliveryState.pending p q = cc
waiting_not_ended _ p q = cc

module _ ⦃h : Hash⦄ ⦃base64 : Base64⦄ where
  -- An enqueue writes no name that is taken.
  pub get-enqueue_checked :
      (env : Env) (k : Bytes) (r : Outbound) (c : Result DeliveryError (Unit {0})) (o : Outbox)
      (d : Delivery)
      → get k o ≡ some (readable d)
      → get k (enqueue_checked env r c o).0 ≡ get k o
  unfolding enqueue_checked
  get-enqueue_checked env k r (err x) o d e = refl
  get-enqueue_checked env k r (ok u) o d e = at (get (request_name r) o) refl
    where
      fst-created : (c : Outbox × Result DeliveryError Delivery) → (created c).0 ≡ c.0
      fst-created (o, ok d) = unfold created in refl
      fst-created (o, err x) = unfold created in refl

      free :
          get (request_name r) o ≡ none
          → (eq_bytes (request_name r) k ≡ true) ⊎ (eq_bytes (request_name r) k ≡ false)
          → eq_bytes (request_name r) k ≡ false
      free q (inr ne) = ne
      free q (inl same) =
          absurd
            (none-readable (sym q ∙ (ap (λ z. get z o) (eq_bytes→eq (request_name r) k same) ∙ e)))

      at :
          (f : Option File)
          → get (request_name r) o ≡ f
          → get k (enqueue_at env (request_name r) r f o).0 ≡ get k o
      at (some file) q = unfold enqueue_at in refl
      at none q =
          unfold enqueue_at in
          rw fst-created (
            get-write_as (env.write (fresh_delivery r)) k (request_name r) (fresh_delivery r) o
              (free q (Bool-cases (eq_bytes (request_name r) k))))

  pub seal_change-taken :
      (s : Sealing) (now : ℕ) (d e : Delivery)
      → not (eq_bytes d.attempt_id s.attempt_id) ≡ true
      → seal_change s now d ≢ ok e
  unfolding seal_change
  seal_change-taken s now d e other made =
      let (_, e1, k1) = >>=-eq-ok (require (is_pending d.state) not_pending) _ made in
      let (_, e2, k2) =
        >>=-eq-ok (require (eq_bytes d.session_id s.session_id) other_session) _ k1 in
      let (_, e3, k3) =
        >>=-eq-ok (require (eq_bytes d.attempt_id s.attempt_id) lease_mismatch) _ k2 in
      let same = require-ok _ lease_mismatch e3 in ground arith

  pending_not_pruned :
      (now horizon : ℕ) (d : Delivery)
      → is_pending d.state ≡ true
      → prunable now horizon (read_file (some (readable d))) ≢ some true
  pending_not_pruned now horizon d waits over = at (read_file (some (readable d))) refl over
    where
      at :
          (r : Result DeliveryError Delivery)
          → read_file (some (readable d)) ≡ r
          → prunable now horizon r ≢ some true
      at (err x) q over = cc
      at (ok x) q over =
          let same = readable-injective d x (read_file-ok _ x q) in
          let ended : is_ended x.state ≡ true = ground arith in
          waiting_not_ended x.state (ap (λ z. is_pending z.state) (sym same) ∙ waits) ended

  -- Prune removes no delivery that is pending.
  pub get-prune_from :
      (r : Removal) (k : Bytes) (q : Result PruneError (ℕ × ℕ)) (o : Outbox) (d : Delivery)
      → get k o ≡ some (readable d)
      → is_pending d.state ≡ true
      → get k (prune_from r q o).0 ≡ get k o
  unfolding prune_from
  get-prune_from r k (err x) o d e waits = refl
  get-prune_from r k (ok a) o d e waits =
      elim (SweptFrom-sweep (λ f. prunable a.0 a.1 (read_file f)) r k o) [
        | inl same ↦ same
        | inr (gone, over) ↦ absurd (
            pending_not_pruned a.0 a.1 d waits
              (ap (λ f. prunable a.0 a.1 (read_file f)) (sym e) ∙ over))
      ]
