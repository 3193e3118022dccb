-- ===== src/Delivery/Sweep.antt =====
-- pkg/eventlog/delivery.go: the sweeps over the whole outbound directory, and the lookup.
use tos_messenger.Base.{
  ℕ, suc, Bool, ◌&&◌, ◌||◌, Option, none, some, List, [], ◌∷◌, ltb, leb, ◌==◌, if◌then◌else◌, Bytes,
  lt_bytes, sort_by, Result, ok, err, require, ◌>>=◌, ◌>>◌, Time, unix_seconds,
}
use tos_messenger.Canon.Encode.{Hash}
use tos_messenger.Fault.Codes.{Code, timeout}
use tos_messenger.Delivery.Record.{
  Base64, Delivery, DeliveryError, abandoned, is_pending, is_held, is_delivery_id, key, file_name,
  not_owned, bad_delivery, unknown_delivery,
}
use tos_messenger.Delivery.Outbox.{Env, Outbox, time_of, read_file, read_delivery, commit_delivery}

-- Whether `Due` selects a delivery.
abbrev pub is_due : ℕ → Delivery → Bool
is_due now d =
    is_pending d.state
    && ltb now d.expires_at_unix
    && leb d.next_attempt_at_unix now
    && leb d.attempt_expires_at now

-- The order of `Due`.
abbrev pub due_before : Delivery → Delivery → Bool
due_before a b =
    if a.next_attempt_at_unix == b.next_attempt_at_unix
    then lt_bytes (key a) (key b)
    else ltb a.next_attempt_at_unix b.next_attempt_at_unix

-- Whether `ExpireDeliveries` settles a delivery.
abbrev pub is_overdue : ℕ → Delivery → Bool
is_overdue now d = (is_pending d.state || is_held d.state) && leb d.expires_at_unix now

abbrev pub or_timeout : Option Code → Option Code
or_timeout none = some timeout
or_timeout (some c) = some c

unfoldable pub expired_delivery : ℕ → Delivery → Delivery
expired_delivery now d = record d {
  state = abandoned;
  next_attempt_at_unix = 0;
  attempt_id = [];
  attempt_expires_at = 0;
  settled_at_unix = now;
  last_code = or_timeout d.last_code;
}

abbrev pub file_names : Outbox → List Bytes
file_names [] = []
file_names ((name, file) ∷ o) = name ∷ file_names o

module _ ⦃h : Hash⦄ ⦃base64 : Base64⦄ where
  keep_due : ℕ → Result DeliveryError Delivery → List Delivery → List Delivery
  keep_due now (err e) ds = ds
  keep_due now (ok d) ds = if is_due now d then d ∷ ds else ds

  -- The loop of `Due`, over the files of the directory.
  unfoldable pub collect_due : ℕ → Outbox → List Delivery
  unfolding keep_due
  collect_due now [] = []
  collect_due now ((name, file) ∷ o) = keep_due now (read_file (some file)) (collect_due now o)

  -- Due
  unfoldable pub due : Env → Time → Outbox → Result DeliveryError (List Delivery)
  due env now o = do
    require env.owned not_owned
    seconds ← time_of (unix_seconds now)
    ok (sort_by due_before (collect_due seconds o))

  abbrev pub found_delivery : Result DeliveryError Delivery → Result DeliveryError (Option Delivery)
  found_delivery (ok d) = ok (some d)
  found_delivery (err unknown_delivery) = ok none
  found_delivery (err e) = err e

  -- lookupDelivery
  unfoldable pub lookup_delivery : Env → Bytes → Outbox → Result DeliveryError (Option Delivery)
  lookup_delivery env id o = do
    require env.owned not_owned
    require (is_delivery_id id) bad_delivery
    found_delivery (read_delivery (file_name id) o)

  -- What a round of `ExpireDeliveries` writes under a name, if anything.
  unfoldable pub expiring : ℕ → Result DeliveryError Delivery → Option Delivery
  unfolding expired_delivery
  expiring now (err e) = none
  expiring now (ok d) = if is_overdue now d then some (expired_delivery now d) else none

  unfoldable pub after_write :
      Outbox × Result DeliveryError Delivery
      → (Outbox → Outbox × Result DeliveryError ℕ)
      → Outbox × Result DeliveryError ℕ
  after_write (o, ok d) rest = rest o
  after_write (o, err e) rest = (o, err e)

  -- The loop of `ExpireDeliveries`, over the names that the directory had.
  unfoldable pub expire_names : Env → ℕ → ℕ → List Bytes → Outbox → Outbox × Result DeliveryError ℕ
  expire_names env now count [] o = (o, ok count)
  expire_names env now count (name ∷ rest) o = elim (expiring now (read_delivery name o)) [
    | none ↦ expire_names env now count rest o
    | some d ↦
        after_write (commit_delivery env name (ok d) o)
          (λ o'. expire_names env now (suc count) rest o')
  ]

  unfoldable pub expire_from :
      Env → Result DeliveryError ℕ → Outbox → Outbox × Result DeliveryError ℕ
  expire_from env (err e) o = (o, err e)
  expire_from env (ok now) o = expire_names env now 0 (file_names o) o

  -- ExpireDeliveries; the count beside an error is left out.
  unfoldable pub expire_deliveries : Env → Time → Outbox → Outbox × Result DeliveryError ℕ
  unfolding expire_from
  expire_deliveries env now o =
      expire_from env (do require env.owned not_owned; time_of (unix_seconds now)) o
