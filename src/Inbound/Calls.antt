-- ===== src/Inbound/Calls.antt =====
-- The operations that change the inbound directory as one family: those of journal.go and quota.go,
-- CommitInbound of session.go, as one step, and the sweep of prune.go.
use tos_messenger.Base.{
  Bool, is_some, get, not, ◌&&◌, ℕ, ◌+◌, if◌then◌else◌, Option, List, [], ◌∷◌, Bytes, eq_bytes,
  Time, is_ok,
}
use tos_messenger.Canon.Encode.{Hash}
use tos_messenger.Fault.Codes.{Code}
use tos_messenger.Delivery.Record.{Base64, file_name}
use tos_messenger.Inbound.Record.{Entry, Transition}
use tos_messenger.Inbound.Stored.{EventJson, Kinds}
use tos_messenger.Inbound.Queue.{
  Env, Inbox, accept, claim_for_application, complete_application, reject_application, mark_read,
  admit_event, deny_event,
}
use tos_messenger.Inbound.Sweep.{event_names, expire_pending_admissions}
use tos_messenger.Inbound.Transition.{SessionAnswer, commit_inbound, recover_staged}
use tos_messenger.Inbound.Swept.{prune_events}
use tos_messenger.Prune.{Removal}

pub data InboundCall : Type 0 where
  accepts : Entry → InboundCall
  claims_event : Kinds → Bytes → Bytes → Time → ℕ → InboundCall
  completes : Bytes → Bytes → Time → InboundCall
  rejects_event : Bytes → Bytes → Option Code → Time → InboundCall
  reads_event admits : Bytes → Time → InboundCall
  denies_event : Bytes → Option Code → Time → InboundCall
  expires_waiting : Time → InboundCall
  commits_event : Bool → SessionAnswer → Transition → Entry → Time → InboundCall
  recovers_staged : (Bytes → SessionAnswer) → InboundCall
  prunes_events : Removal → Time → ℕ → InboundCall

module _ ⦃h : Hash⦄ ⦃base64 : Base64⦄ ⦃json : EventJson⦄ where
  unfoldable pub handle : Env → InboundCall → Inbox → Inbox
  handle env (accepts e) o = (accept env e o).0
  handle env (claims_event kinds id lease now duration) o =
      (claim_for_application env kinds id lease now duration o).0
  handle env (completes id lease now) o = (complete_application env id lease now o).0
  handle env (rejects_event id lease code now) o = (reject_application env id lease code now o).0
  handle env (reads_event id now) o = (mark_read env id now o).0
  handle env (admits id now) o = (admit_event env id now o).0
  handle env (denies_event id code now) o = (deny_event env id code now o).0
  handle env (expires_waiting now) o = (expire_pending_admissions env now o).0
  handle env (commits_event valid answer t e now) o = (commit_inbound env valid answer t e now o).0
  handle env (recovers_staged answers) o = (recover_staged env answers (event_names o) o).0
  handle env (prunes_events r now retention) o = (prune_events env r now retention o).0

  -- One, if the call reports the result of a runtime on the event of a file, and succeeds.
  unfoldable pub result_count : Env → InboundCall → Bytes → Inbox → ℕ
  result_count env (completes id lease now) k o =
      if eq_bytes (file_name id) k
      then (if is_ok (complete_application env id lease now o).1 then 1 else 0)
      else 0
  result_count env (rejects_event id lease code now) k o =
      if eq_bytes (file_name id) k
      then (if is_ok (reject_application env id lease code now o).1 then 1 else 0)
      else 0
  result_count env _ k o = 0

  unfoldable pub results : List (Env × InboundCall) → Bytes → Inbox → ℕ
  unfolding result_count
  results [] k o = 0
  results ((env, c) ∷ r) k o = result_count env c k o + results r k (handle env c o)

  -- One, if the call removes a file.
  unfoldable pub removal_count : Env → InboundCall → Bytes → Inbox → ℕ
  unfolding handle
  removal_count env (prunes_events r now retention) k o =
      if is_some (get k o) && not (is_some (get k (prune_events env r now retention o).0))
      then 1
      else 0
  removal_count env _ k o = 0

  unfoldable pub removals : List (Env × InboundCall) → Bytes → Inbox → ℕ
  unfolding removal_count
  removals [] k o = 0
  removals ((env, c) ∷ r) k o = removal_count env c k o + removals r k (handle env c o)
