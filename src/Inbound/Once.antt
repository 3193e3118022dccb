-- ===== src/Inbound/Once.antt =====
-- An event is processed once: at most one result of a runtime is taken for a record of it.
use tos_messenger.Base.{
  ◌>>◌, ℕ, ◌+◌, ◌≤◌, ap, none, some, List, [], ◌∷◌, Bytes, eq_bytes, Result, require, refuse_if,
  ok-injective, >>=-eq-ok, arith, get,
}
use tos_messenger.Canon.Encode.{Hash}
use tos_messenger.Delivery.Record.{Base64, file_name}
use tos_messenger.Inbound.Record.{InboundError, is_admitted, not_admitted, lease_reused}
use tos_messenger.Inbound.Stored.{EventJson, Kinds, check_kind, may_claim, claim_event}
use tos_messenger.Inbound.Queue.{
  Env, Inbox, accept, claim_for_application, complete_application, reject_application, mark_read,
  admit_event, deny_event,
}
use tos_messenger.Inbound.Sweep.{event_names, expire_pending_admissions}
use tos_messenger.Inbound.Calls.{
  InboundCall, handle, result_count, removal_count, results, removals,
}
use tos_messenger.Inbound.Calls
use tos_messenger.Inbound.Rank.{
  rank, work, Lessens, work_bounds, nothing_more, may_claim-rank, decide_event-Lessens,
}
use tos_messenger.Inbound.Work.{
  work-amend, finish-counted, work-accept_checked, work-marked, work-expire_events_from,
}
use tos_messenger.Inbound.Settled.{work-commit_checked, work-recover_staged, prune_from-work}
use tos_messenger.Inbound.Transition.{commit_inbound}
use tos_messenger.Inbound.Swept.{prune_events}
use tos_messenger.Prune.{prune_request}
use tos_messenger.Inbound.Queue.{lease_time, known_code}

module _ ⦃h : Hash⦄ ⦃base64 : Base64⦄ ⦃json : EventJson⦄ where
  claim_event-Lessens :
      (kinds : Kinds) (lease : Bytes) → Lessens {A = ℕ × ℕ} (λ a. claim_event kinds lease a.0 a.1)
  unfolding claim_event
  claim_event-Lessens kinds lease (now, seconds) r x made =
      let (_, e1, k1) = >>=-eq-ok (check_kind kinds r) _ made in
      let (_, e2, k2) = >>=-eq-ok (require (is_admitted r.admission) not_admitted) _ k1 in
      let (_, e3, k3) = >>=-eq-ok (may_claim now r.lease_expires_at r.application) _ k2 in
      let (_, e4, k4) = >>=-eq-ok (refuse_if (eq_bytes r.lease_id lease) lease_reused) _ k3 in
      let before = may_claim-rank now r.lease_expires_at r.application e3 in
      let after = ap (λ z. rank z.application) (ok-injective k4) in omega arith

  -- No call makes more results possible, and each result uses one up.
  handle-work :
      (env : Env) (c : InboundCall) (k : Bytes) (o : Inbox)
      → result_count env c k o + work (get k (handle env c o))
        ≤ removal_count env c k o + work (get k o)
  unfolding handle result_count removal_count accept claim_for_application complete_application
      reject_application mark_read admit_event deny_event expire_pending_admissions commit_inbound
      prune_events
  handle-work env (Calls.accepts e) k o = nothing_more _ _ (work-accept_checked env k e _ o)
  handle-work env (Calls.claims_event kinds id lease now duration) k o =
      nothing_more _ _ (work-amend env k id _ _ o (claim_event-Lessens kinds lease))
  handle-work env (Calls.completes id lease now) k o =
      let le = finish-counted env k id (lease_time env id lease now) lease none o in omega arith
  handle-work env (Calls.rejects_event id lease code now) k o =
      let request : Result InboundError ℕ = (do known_code code; lease_time env id lease now) in
      let le = finish-counted env k id request lease (some code) o in omega arith
  handle-work env (Calls.reads_event id now) k o =
      nothing_more _ _ (work-marked env k (file_name id) _ o)
  handle-work env (Calls.admits id now) k o =
      nothing_more _ _ (work-amend env k id _ _ o (decide_event-Lessens none))
  handle-work env (Calls.denies_event id code now) k o =
      nothing_more _ _ (work-amend env k id _ _ o (decide_event-Lessens (some code)))
  handle-work env (Calls.expires_waiting now) k o =
      nothing_more _ _ (work-expire_events_from env k _ o)
  handle-work env (Calls.commits_event valid answer t e now) k o =
      nothing_more _ _ (work-commit_checked env answer k _ _ o)
  handle-work env (Calls.recovers_staged answers) k o =
      nothing_more _ _ (work-recover_staged env answers k (event_names o) o)
  handle-work env (Calls.prunes_events r now retention) k o =
      prune_from-work r k (prune_request env.owned now retention) o

  results-work :
      (r : List (Env × InboundCall)) (k : Bytes) (o : Inbox)
      → results r k o ≤ removals r k o + work (get k o)
  unfolding results removals
  results-work [] k o = omega arith
  results-work ((env, c) ∷ r) k o =
      let one = handle-work env c k o in
      let later = results-work r k (handle env c o) in omega arith

  -- Whatever is called on the inbound journal, by its operations, by CommitInbound, by the recovery of
  -- staged events or by Prune, whichever writes and removals fail and however often an event is
  -- accepted again, claimed or read: at most one result of a runtime, a completion or a rejection,
  -- is taken for it, and none if it is applied or rejected already, and one more at most for every
  -- time that Prune removes its record. CommitInbound is one step, with nothing between its Accept
  -- and its commit.
  pub results_once :
      (r : List (Env × InboundCall)) (k : Bytes) (o : Inbox)
      → (results r k o ≤ removals r k o + 1) × (results r k o ≤ removals r k o + work (get k o))
  results_once r k o =
      let le = results-work r k o in let most = work_bounds (get k o) in ((omega arith), le)
