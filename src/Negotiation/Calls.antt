-- ===== src/Negotiation/Calls.antt =====
-- The methods of a negotiation as one family of calls, for statements about all of them.
use tos_messenger.Base.{Option, List, [], ◌∷◌, Bytes, ok, Time}
use tos_messenger.Canon.Encode.{Hash}
use tos_messenger.Negotiation.Terms.{Terms}
use tos_messenger.Negotiation.Quote.{QuoteResolver}
use tos_messenger.Negotiation.State.{Env, World}
use tos_messenger.Negotiation.Exec.{Exec, ◌>>=◌, lift}
use tos_messenger.Negotiation.Machine.{
  receive_proposal, counter, accept_intent, reopen, reject_intent, withdraw, approve_by_owner,
  deny_by_owner, begin_canonicalization, expire, finalize,
}

-- A call that changes a negotiation, with its arguments.
pub data Call : Type 0 where
  receives counters : Terms → Time → Call
  accepts begins expires : Time → Call
  reopens : Bytes → Time → Call
  rejects withdraws denies : Bytes → Call
  approves : Bytes → Time → Call
  finalizes : Option QuoteResolver → Bytes → Time → Call

module _ ⦃h : Hash⦄ where
  unfoldable pub call : Env → Call → Exec (Unit {0})
  call env (receives t now) = receive_proposal env t now
  call env (counters t now) = counter env t now
  call env (accepts now) = accept_intent env now
  call env (begins now) = begin_canonicalization env now
  call env (expires now) = do flag ← expire env now; lift (ok tt)
  call env (reopens reason now) = reopen env reason now
  call env (rejects reason) = reject_intent env reason
  call env (withdraws reason) = withdraw env reason
  call env (denies reason) = deny_by_owner env reason
  call env (approves shown now) = approve_by_owner env shown now
  call env (finalizes resolver commitment now) = finalize env resolver commitment now

  -- Calls one after another, each in the environment of its moment; an error does not stop the caller.
  unfoldable pub run : List (Env × Call) → World → World
  run [] w = w
  run ((env, c) ∷ r) w = run r (call env c w).0
