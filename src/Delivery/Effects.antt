-- ===== src/Delivery/Effects.antt =====
-- What an operation on one record does to the directory: nothing when it refuses, and when it
-- succeeds the file holds what it returned.
use tos_messenger.Base.{
  ◌≡◌, ◌≢◌, refl, sym, ap, ◌∙◌, subst, false, Option, some, Bytes, eq_bytes, eq_bytes→eq,
  eq_bytes_refl, Result, ok, err, ◌>>=◌, >>=-eq-ok, ok-injective, Bool-cases, inl, inr, arith, get,
  get-set,
}
use tos_messenger.Canon.Encode.{Hash}
use tos_messenger.Delivery.Record.{Base64, Delivery, DeliveryError, file_name}
use tos_messenger.Delivery.Outbox.{
  Env, Outbox, File, readable, Write, written, lost, unsynced, write_as, commit_delivery,
  read_delivery, revise,
}
use tos_messenger.Delivery.Refines.{read_file-ok}

pub readable-injective :
    (d e : Delivery) → ◌≡◌ {A = Option File} (some (readable d)) (some (readable e)) → d ≡ e
readable-injective d e h = ground arith

module _ ⦃h : Hash⦄ ⦃base64 : Base64⦄ where
  pub get-write_as :
      (w : Write) (k name : Bytes) (e : Delivery) (o : Outbox)
      → eq_bytes name k ≡ false
      → get k (write_as w name e o).0 ≡ get k o
  unfolding write_as
  get-write_as written k name e o ne = rw (get-set, ne) refl
  get-write_as lost k name e o ne = refl
  get-write_as unsynced k name e o ne = rw (get-set, ne) refl

  get-commit :
      (env : Env) (k name : Bytes) (r : Result DeliveryError Delivery) (o : Outbox)
      → eq_bytes name k ≡ false
      → get k (commit_delivery env name r o).0 ≡ get k o
  unfolding commit_delivery
  get-commit env k name (err x) o ne = refl
  get-commit env k name (ok e) o ne = get-write_as (env.write e) k name e o ne

  commit_refused :
      (env : Env) (k : Bytes) (r : Result DeliveryError Delivery) (o : Outbox)
      → ((x : Delivery) → r ≢ ok x)
      → get k (commit_delivery env k r o).0 ≡ get k o
  unfolding commit_delivery
  commit_refused env k (err x) o refuses = refl
  commit_refused env k (ok e) o refuses = absurd (refuses e refl)

  -- An operation that would refuse a record leaves it as it is.
  pub revise_refused :
      {A : Type 0} (env : Env) (id k : Bytes) (r : Result DeliveryError A)
      (change : A → Delivery → Result DeliveryError Delivery) (o : Outbox) (d : Delivery)
      → get k o ≡ some (readable d)
      → ((a : A) (x : Delivery) → r ≡ ok a → change a d ≢ ok x)
      → get k (revise env id r change o).0 ≡ get k o
  unfolding revise
  revise_refused env id k (err x) change o d e refuses = refl
  revise_refused env id k (ok a) change o d e refuses =
      elim (Bool-cases (eq_bytes (file_name id) k)) [
        | inr ne ↦ get-commit env k (file_name id) _ o ne
        | inl same ↦
            let q = eq_bytes→eq (file_name id) k same in
            subst
              (λ z.
                get k (commit_delivery env z (do x ← read_delivery z o; change a x) o).0 ≡ get k o)
              (sym q)
              (commit_refused env k _ o λ x made.
                let (y, read, changed) = >>=-eq-ok (read_delivery k o) (change a) made in
                let is_d =
                  readable-injective y d
                    (sym (read_file-ok (get k o) y (unfold read_delivery in read)) ∙ e) in
                refuses a x refl (subst (λ z. change a z ≡ ok x) is_d changed))
      ]

  write_as-ok :
      (w : Write) (name : Bytes) (d : Delivery) (o o' : Outbox) (e : Delivery)
      → write_as w name d o ≡ (o', ok e)
      → (d ≡ e) × (get name o' ≡ some (readable e))
  unfolding write_as
  write_as-ok written name d o o' e k =
      let same = ok-injective (ap (λ x. x.1) k) in
      (same, rw (← ap (λ x. x.0) k, get-set, eq_bytes_refl name, same) refl)
  write_as-ok lost name d o o' e k = cc (ap (λ x. x.1) k)
  write_as-ok unsynced name d o o' e k = cc (ap (λ x. x.1) k)

  commit-ok :
      (env : Env) (name : Bytes) (r : Result DeliveryError Delivery) (o o' : Outbox) (e : Delivery)
      → commit_delivery env name r o ≡ (o', ok e)
      → (r ≡ ok e) × (get name o' ≡ some (readable e))
  unfolding commit_delivery
  commit-ok env name (err x) o o' e k = cc (ap (λ x. x.1) k)
  commit-ok env name (ok d) o o' e k =
      let (same, there) = write_as-ok (env.write d) name d o o' e k in (ap ok same, there)

  -- What a successful operation read and wrote.
  pub revise-ok :
      {A : Type 0} (env : Env) (id : Bytes) (r : Result DeliveryError A)
      (change : A → Delivery → Result DeliveryError Delivery) (o o' : Outbox) (e : Delivery)
      → revise env id r change o ≡ (o', ok e)
      → (a : A) × (d : Delivery) × (r ≡ ok a)
        × (get (file_name id) o ≡ some (readable d))
        × (change a d ≡ ok e)
        × (get (file_name id) o' ≡ some (readable e))
  unfolding revise
  revise-ok env id (err x) change o o' e k = cc (ap (λ x. x.1) k)
  revise-ok env id (ok a) change o o' e k =
      let (made, there) = commit-ok env (file_name id) _ o o' e k in
      let (d, read, changed) = >>=-eq-ok (read_delivery (file_name id) o) (change a) made in
      (
        a,
        d,
        refl,
        read_file-ok (get (file_name id) o) d (unfold read_delivery in read),
        changed,
        there,
      )
