-- ===== src/Delivery/Refines.antt =====
-- The outbox refines the lifecycle: whatever is called, each file goes through steps of it.
use tos_messenger.Base.{◌≡◌, ap, Option, none, some, ok, >>=-eq-ok, ok-injective}
use tos_messenger.Canon.Encode.{Hash}
use tos_messenger.Delivery.Record.{Base64, DeliveryState, Delivery, validate_delivery}
use tos_messenger.Delivery.Outbox.{Outbox, File, readable, unreadable, read_file}
use tos_messenger.Delivery.Lifecycle.{waiting, settled, status, Step}
use tos_messenger.Delivery.Calls

-- What becomes of one file. It is removed when its delivery is settled, and an unreadable one stays as
-- it is.
pub data Life : Option File → Option File → Type 0 where
  kept : (f : Option File) → Life f f
  added :
      (d : Delivery) (g : Option File)
      → status d ≡ waiting 0
      → Life (some (readable d)) g
      → Life none g
  moved :
      (d e : Delivery) (g : Option File)
      → Step (status d) (status e)
      → Life (some (readable e)) g
      → Life (some (readable d)) g
  removed :
      (d : Delivery) (s : DeliveryState) (g : Option File)
      → status d ≡ settled s
      → Life none g
      → Life (some (readable d)) g

module _ ⦃h : Hash⦄ ⦃base64 : Base64⦄ where
  pub read_file-ok : (f : Option File) (d : Delivery) → read_file f ≡ ok d → f ≡ some (readable d)
  unfolding read_file
  read_file-ok none d k = cc
  read_file-ok (some unreadable) d k = cc
  read_file-ok (some (readable x)) d k =
      let (_, e, k1) = >>=-eq-ok (validate_delivery x) _ k in
      ap (λ y. some (readable y)) (ok-injective k1)
