-- ===== src/Delivery/Lease.antt =====
-- The lease of `ClaimForSend`, and the calls that leave a claimed delivery as it is.
use tos_messenger.Base.{
  &&-true, ℕ, ◌≡◌, ◌∙◌, Bool, true, false, ◌&&◌, not, some, List, [], ◌∷◌, Bytes, eq_bytes, all, ok,
  get, Time, unix_seconds,
}
use tos_messenger.Canon.Encode.{Hash}
use tos_messenger.Delivery.Record.{Base64, Delivery, delivered, is_pending, is_empty, file_name}
use tos_messenger.Delivery.Outbox.{
  Env, Outbox, readable, claim_for_send, failed, settle_delivered, resume, enqueue,
}
use tos_messenger.Delivery.Calls.{Call, step, run}
use tos_messenger.Delivery.Calls
use tos_messenger.Delivery.Seal.{commit_sealed}
use tos_messenger.Delivery.Swept.{prune_deliveries}
use tos_messenger.Delivery.Effects.{revise_refused, revise-ok}
use tos_messenger.Delivery.Barred.{
  is_before, claim_change-taken, claim_change-held, failed_change-taken, settle_change-taken,
  resume_change-pending, claim_request-before, get-enqueue_checked, seal_change-taken,
  get-prune_from,
}

-- A call that names another attempt, a claim among them only before the lease of the record ends, or
-- that is an enqueue, a resumption or a sweep of Prune. `Abandon`, `ExpireDeliveries` and a
-- `Delivered` that names no attempt are none of these: they settle a delivery whoever holds it.
abbrev pub is_others : Delivery → Call → Bool
is_others d (Calls.enqueues r) = true
is_others d (Calls.claims id attempt now lease) =
    not (eq_bytes d.attempt_id attempt) && is_before d.attempt_expires_at (unix_seconds now)
is_others d (Calls.fails id attempt code now) = not (eq_bytes d.attempt_id attempt)
is_others d (Calls.delivers id attempt now) =
    not (is_empty attempt) && not (eq_bytes d.attempt_id attempt)
is_others d (Calls.abandons id now) = false
is_others d (Calls.resumes id now) = true
is_others d (Calls.expires now) = false
is_others d (Calls.seals id s now) = not (eq_bytes d.attempt_id s.attempt_id)
is_others d (Calls.prunes r now retention) = true

module _ ⦃h : Hash⦄ ⦃base64 : Base64⦄ where
  step-others :
      (env : Env) (c : Call) (k : Bytes) (o : Outbox) (d : Delivery)
      → get k o ≡ some (readable d)
      → is_pending d.state ≡ true
      → is_others d c ≡ true
      → get k (step env c o) ≡ get k o
  unfolding step claim_for_send failed settle_delivered resume enqueue commit_sealed
      prune_deliveries
  step-others env (Calls.enqueues r) k o d e waits other = get-enqueue_checked env k r _ o d e
  step-others env (Calls.claims id attempt now lease) k o d e waits other =
      let (differs, before) = &&-true _ _ other in
      revise_refused env id k _ _ o d e (λ a x q.
        claim_change-taken attempt a.0 a.1 d x differs
          (claim_request-before env id attempt now lease d.attempt_expires_at a before q))
  step-others env (Calls.fails id attempt code now) k o d e waits other =
      revise_refused env id k _ _ o d e (λ a x q. failed_change-taken attempt code a d x other)
  step-others env (Calls.delivers id attempt now) k o d e waits other =
      revise_refused env id k _ _ o d e (λ a x q. settle_change-taken attempt delivered a d x other)
  step-others env (Calls.abandons id now) k o d e waits other = cc
  step-others env (Calls.resumes id now) k o d e waits other =
      revise_refused env id k _ _ o d e (λ a x q. resume_change-pending a d x waits)
  step-others env (Calls.expires now) k o d e waits other = cc
  step-others env (Calls.seals id s now) k o d e waits other =
      revise_refused env id k _ _ o d e (λ a x q. seal_change-taken s a d x other)
  step-others env (Calls.prunes r now retention) k o d e waits other =
      get-prune_from r k _ o d e waits

  run-others :
      (r : List (Env × Call)) (k : Bytes) (o : Outbox) (d : Delivery)
      → get k o ≡ some (readable d)
      → is_pending d.state ≡ true
      → all (λ x. is_others d x.1) r ≡ true
      → get k (run r o) ≡ some (readable d)
  unfolding run
  run-others [] k o d e waits others = e
  run-others ((env, c) ∷ r) k o d e waits others =
      let (first, rest) = &&-true _ _ others in
      run-others r k (step env c o) d (step-others env c k o d e waits first ∙ e) waits rest

  -- Once a sweep has claimed a delivery, the record stays what the claim returned, under that
  -- attempt, through every sequence of these calls: claims under another attempt before the lease
  -- ends, `Failed`, `Delivered` and `CommitSealed` that name another attempt, enqueues, resumptions
  -- and sweeps of Prune. `Abandon`, `ExpireDeliveries` and a `Delivered` that names no attempt are
  -- not among them.
  pub claim_exclusive :
      (env : Env) (id attempt : Bytes) (now : Time) (lease : ℕ) (o o' : Outbox) (e : Delivery)
      (r : List (Env × Call))
      → claim_for_send env id attempt now lease o ≡ (o', ok e)
      → all (λ x. is_others e x.1) r ≡ true
      → (get (file_name id) (run r o') ≡ some (readable e)) × (e.attempt_id ≡ attempt)
  unfolding claim_for_send
  claim_exclusive env id attempt now lease o o' e r made others =
      let (a, d, _, _, changed, there) = revise-ok env id _ _ o o' e made in
      let (waits, mine) = claim_change-held attempt a.0 a.1 d e changed in
      (run-others r (file_name id) o' e there waits others, mine)
