-- ===== src/Delivery/Swept.antt =====
-- pkg/eventlog/prune.go: the deliveries that a sweep removes.
use tos_messenger.Base.{
  ℕ, ◌+◌, Bool, true, false, ◌&&◌, Option, none, some, leb, ◌==◌, if◌then◌else◌, Result, ok, err,
  Time, u64,
}
use tos_messenger.Canon.Encode.{Hash}
use tos_messenger.Prune.{PruneError, Removal, SweepResult, prune_request, sweep}
use tos_messenger.Delivery.Record.{
  Base64, Delivery, DeliveryState, DeliveryError, delivered, abandoned,
}
use tos_messenger.Delivery.Outbox.{Env, Outbox, read_file}

abbrev pub is_ended : DeliveryState → Bool
is_ended delivered = true
is_ended abandoned = true
is_ended _ = false

-- Whether Prune removes a delivery, at a time, with the seconds of the retention.
abbrev pub is_prunable : ℕ → ℕ → Delivery → Bool
is_prunable now horizon d =
    let settled = if d.settled_at_unix == 0 then d.created_at_unix else d.settled_at_unix in
    is_ended d.state && leb (u64 (settled + horizon)) now

abbrev pub prunable : ℕ → ℕ → Result DeliveryError Delivery → Option Bool
prunable now horizon (err e) = none
prunable now horizon (ok d) = some (is_prunable now horizon d)

module _ ⦃h : Hash⦄ ⦃base64 : Base64⦄ where
  unfoldable pub prune_from :
      Removal → Result PruneError (ℕ × ℕ) → Outbox → Outbox × Result PruneError SweepResult
  prune_from r (err e) o = (o, err e)
  prune_from r (ok a) o = sweep (λ f. prunable a.0 a.1 (read_file f)) r o

  -- Prune, its sweep of the outbound directory.
  unfoldable pub prune_deliveries :
      Env → Removal → Time → ℕ → Outbox → Outbox × Result PruneError SweepResult
  unfolding prune_from
  prune_deliveries env r now retention o = prune_from r (prune_request env.owned now retention) o
