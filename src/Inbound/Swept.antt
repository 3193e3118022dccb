-- ===== src/Inbound/Swept.antt =====
-- pkg/eventlog/prune.go: the events that a sweep removes.
use tos_messenger.Base.{ℕ, ◌+◌, Bool, ◌&&◌, Option, none, some, leb, Result, ok, err, Time, u64}
use tos_messenger.Canon.Encode.{Hash}
use tos_messenger.Delivery.Record.{Base64}
use tos_messenger.Prune.{PruneError, Removal, SweepResult, prune_request, sweep}
use tos_messenger.Inbound.Record.{EventRecord, InboundError, is_terminal}
use tos_messenger.Inbound.Queue.{Env, Inbox, read_stored}

-- Whether Prune removes an event, at a time, with the seconds of the retention.
abbrev pub is_prunable : ℕ → ℕ → EventRecord → Bool
is_prunable now horizon r = is_terminal r && leb (u64 (r.received_at_unix + horizon)) now

abbrev pub prunable : ℕ → ℕ → Result InboundError EventRecord → Option Bool
prunable now horizon (err e) = none
prunable now horizon (ok r) = some (is_prunable now horizon r)

module _ ⦃h : Hash⦄ ⦃base64 : Base64⦄ where
  unfoldable pub prune_from :
      Removal → Result PruneError (ℕ × ℕ) → Inbox → Inbox × Result PruneError SweepResult
  prune_from r (err e) o = (o, err e)
  prune_from r (ok a) o = sweep (λ f. prunable a.0 a.1 (read_stored f)) r o

  -- Prune, its sweep of the inbound directory.
  unfoldable pub prune_events :
      Env → Removal → Time → ℕ → Inbox → Inbox × Result PruneError SweepResult
  unfolding prune_from
  prune_events env r now retention o = prune_from r (prune_request env.owned now retention) o
