-- ===== src/Inbound/Transition.antt =====
-- pkg/eventlog/session.go and journal.go: events that wait for a transition of their session, as far
-- as the inbound directory goes. The validation of the algorithm and the state, in pkg/e2ee, and
-- what the session directory answers are chosen by the caller of the definitions.
use tos_messenger.Base.{
  ℕ, Bool, true, false, ◌&&◌, not, Option, none, some, List, [], ◌∷◌, if◌then◌else◌, Bytes, Result,
  ok, err, require, ◌>>◌, Time, unix_seconds,
}
use tos_messenger.Canon.Encode.{Hash}
use tos_messenger.Delivery.Record.{Base64, file_name, is_session}
use tos_messenger.Inbound.Record.{
  Entry, Transition, EventRecord, InboundError, CryptoState, staged, committed, abandoned,
  not_owned, bad_session_input, session_failed, session_conflict,
}
use tos_messenger.Inbound.Queue.{Env, Inbox, time_of, accept, commit_record, read_record}

abbrev pub is_committed : CryptoState → Bool
is_committed committed = true
is_committed _ = false

abbrev pub is_staged : CryptoState → Bool
is_staged staged = true
is_staged _ = false

-- What the session directory answers: it cannot be read or written; the session is at another
-- generation, or a stored transition cannot be read; or the session is at the next state, moved
-- there now or, for a recovery, by this event before.
pub data SessionAnswer : Type 0 where
  unanswered moved_on advanced : SessionAnswer

-- The record that commitInbound writes, with the error beside it, if any.
unfoldable pub finish_transition :
    SessionAnswer → ℕ → EventRecord → Result InboundError (EventRecord × Bool)
finish_transition unanswered now r = err session_failed
finish_transition moved_on now r = ok (record r { crypto = abandoned }, false)
finish_transition advanced now r = ok (record r { crypto = committed; crypto_at_unix = now }, true)

unfoldable pub conflicting :
    Bool → Inbox × Result InboundError EventRecord → Inbox × Result InboundError EventRecord
conflicting kept (o, err e) = (o, err e)
conflicting true (o, ok r) = (o, ok r)
conflicting false (o, ok r) = (o, err session_conflict)

unfoldable pub write_transition :
    Env
    → Bytes
    → Result InboundError (EventRecord × Bool)
    → Inbox
    → Inbox × Result InboundError EventRecord
unfolding conflicting
write_transition env name (err e) o = (o, err e)
write_transition env name (ok (r, kept)) o = conflicting kept (commit_record env name (ok r) o)

-- What recoverStaged does to a file: nothing, a write, or an error.
pub data Recovery : Type 0 where
  passes stops : Recovery
  writes : EventRecord → Recovery

abbrev pub or_stops : Option EventRecord → Recovery
or_stops none = stops
or_stops (some r) = writes r

-- The state that resolveStaged gives a record, of what the session directory answers.
unfoldable pub resolved : SessionAnswer → EventRecord → Option EventRecord
resolved answer r =
    if is_session r.session_id
    then (elim answer [
      | unanswered ↦ none
      | moved_on ↦ some (record r { crypto = abandoned })
      | advanced ↦ some (record r { crypto = committed })
    ])
    else some (record r { crypto = abandoned })

unfoldable pub recovery : SessionAnswer → Result InboundError EventRecord → Recovery
unfolding resolved
recovery answer (err e) = passes
recovery answer (ok r) = if is_staged r.crypto then or_stops (resolved answer r) else passes

unfoldable pub after_recovery :
    Inbox × Result InboundError EventRecord
    → (Inbox → Inbox × Result InboundError (Unit {0}))
    → Inbox × Result InboundError (Unit {0})
after_recovery (o, err e) rest = (o, err e)
after_recovery (o, ok r) rest = rest o

module _ ⦃h : Hash⦄ ⦃base64 : Base64⦄ where
  -- commitInbound behind its Accept.
  unfoldable pub settle_inbound :
      Env
      → SessionAnswer
      → ℕ
      → Bytes
      → Inbox × Result InboundError (Bool × EventRecord)
      → Inbox × Result InboundError EventRecord
  unfolding write_transition finish_transition
  settle_inbound env answer now name (o, err e) = (o, err e)
  settle_inbound env answer now name (o, ok (fresh, r)) =
      if not fresh && is_committed r.crypto
      then (o, ok r)
      else write_transition env name (finish_transition answer now r) o

  unfoldable pub commit_checked :
      Env
      → SessionAnswer
      → Entry
      → Result InboundError ℕ
      → Inbox
      → Inbox × Result InboundError EventRecord
  unfolding settle_inbound
  commit_checked env answer e (err x) o = (o, err x)
  commit_checked env answer e (ok now) o =
      settle_inbound env answer now (file_name e.event_id) (accept env e o)

  -- commitInbound, with nothing of others between its Accept and the rest. Whether pkg/e2ee accepts
  -- the algorithm and the state is `valid`.
  unfoldable pub commit_inbound :
      Env
      → Bool
      → SessionAnswer
      → Transition
      → Entry
      → Time
      → Inbox
      → Inbox × Result InboundError EventRecord
  unfolding commit_checked
  commit_inbound env valid answer t e now o =
      commit_checked env answer (record e { transition = some t })
        (do
          require env.owned not_owned
          require (is_session t.session_id && valid) bad_session_input
          time_of (unix_seconds now))
        o

  -- recoverStaged, over the names that the directory had. What the session directory answers may
  -- differ from name to name.
  unfoldable pub recover_staged :
      Env → (Bytes → SessionAnswer) → List Bytes → Inbox → Inbox × Result InboundError (Unit {0})
  unfolding recovery after_recovery
  recover_staged env answers [] o = (o, ok tt)
  recover_staged env answers (name ∷ rest) o = elim (recovery (answers name) (read_record name o)) [
    | passes ↦ recover_staged env answers rest o
    | stops ↦ (o, err session_failed)
    | writes r ↦
        after_recovery (commit_record env name (ok r) o) (λ o'. recover_staged env answers rest o')
  ]
