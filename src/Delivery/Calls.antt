-- ===== src/Delivery/Calls.antt =====
-- The operations that change the outbound directory as one family: those of delivery.go, CommitSealed
-- of session.go and the sweep of prune.go. No other code of pkg/eventlog writes or removes its files.
use tos_messenger.Base.{List, [], ◌∷◌, ℕ, Bytes, Time}
use tos_messenger.Canon.Encode.{Hash}
use tos_messenger.Fault.Codes.{Code}
use tos_messenger.Delivery.Record.{Base64, Outbound}
use tos_messenger.Delivery.Outbox.{
  Env, Outbox, enqueue, claim_for_send, failed, settle_delivered, abandon, resume,
}
use tos_messenger.Delivery.Sweep.{expire_deliveries}
use tos_messenger.Delivery.Seal.{Sealing, commit_sealed}
use tos_messenger.Delivery.Swept.{prune_deliveries}
use tos_messenger.Prune.{Removal}

pub data Call : Type 0 where
  enqueues : Outbound → Call
  claims : Bytes → Bytes → Time → ℕ → Call
  fails : Bytes → Bytes → Code → Time → Call
  delivers : Bytes → Bytes → Time → Call
  abandons resumes : Bytes → Time → Call
  expires : Time → Call
  seals : Bytes → Sealing → Time → Call
  prunes : Removal → Time → ℕ → Call

module _ ⦃h : Hash⦄ ⦃base64 : Base64⦄ where
  unfoldable pub step : Env → Call → Outbox → Outbox
  step env (enqueues r) o = (enqueue env r o).0
  step env (claims id attempt now lease) o = (claim_for_send env id attempt now lease o).0
  step env (fails id attempt code now) o = (failed env id attempt code now o).0
  step env (delivers id attempt now) o = (settle_delivered env id attempt now o).0
  step env (abandons id now) o = (abandon env id now o).0
  step env (resumes id now) o = (resume env id now o).0
  step env (expires now) o = (expire_deliveries env now o).0
  step env (seals id s now) o = (commit_sealed env id s now o).0
  step env (prunes r now retention) o = (prune_deliveries env r now retention o).0

  -- Calls one after another, each in the environment of its moment.
  unfoldable pub run : List (Env × Call) → Outbox → Outbox
  run [] o = o
  run ((env, c) ∷ r) o = run r (step env c o)
