-- ===== src/Prune.antt =====
-- pkg/eventlog/prune.go: the sweep over one directory of the journal. A file of the directory is
-- readable or not as its reader says.
use tos_messenger.Base.{
  ℕ, suc, ◌/◌, ◌*◌, ◌&&◌, not, subst, sym, ◌≡◌, refl, ◌∙◌, Bool, true, false, Option, none, some,
  List, [], ◌∷◌, ◌++◌, ltb, Bytes, eq_bytes, eq_bytes→eq, ap, Result, ok, err, require, refuse_if,
  ◌>>◌, ◌>>=◌, Time, unix_seconds, Table, get, remove, get-remove, table_names, Bool-cases, ◌⊎◌,
  inl, inr,
}
use tos_messenger.Fault.Retry.{second}

pub data PruneError : Type 0 where
  not_owned bad_prune_time short_retention remove_failed sync_failed : PruneError

-- Which files the operating system removes, and whether the directory is synced.
pub record Removal : Type 0 where
  pub removes : Bytes → Bool
  pub synced : Bool

pub record SweepResult : Type 0 where
  pub removed : ℕ
  pub unreadable : List Bytes

-- MinClaimRetention: the 30 days of envelope.MaxEnvelopeLifetimeSeconds
abbrev pub min_claim_retention : ℕ
min_claim_retention = 2592000 * second

prune_time : Option ℕ → Result PruneError ℕ
prune_time none = err bad_prune_time
prune_time (some n) = ok n

-- The tests of Prune; the time and the horizon in seconds. A negative duration is below the bound,
-- as 0 is.
unfoldable pub prune_request : Bool → Time → ℕ → Result PruneError (ℕ × ℕ)
unfolding prune_time
prune_request owned now retention = do
  require owned not_owned
  seconds ← prune_time (unix_seconds now)
  refuse_if (ltb retention min_claim_retention) short_retention
  ok (seconds, retention / second)

module _ {F : Type 0} (expired : Option F → Option Bool) (r : Removal) where
  -- The loop of sweep, over the names that the directory had.
  unfoldable pub sweep_names :
      SweepResult → List Bytes → Table F → Table F × Result PruneError SweepResult
  sweep_names s [] m = (m, ok s)
  sweep_names s (name ∷ rest) m = elim (expired (get name m)) [
    | none ↦ sweep_names (record s { unreadable = s.unreadable ++ (name ∷ []) }) rest m
    | some drop ↦ elim drop [
      | false ↦ sweep_names s rest m
      | true ↦ elim (r.removes name) [
        | true ↦ sweep_names (record s { removed = suc s.removed }) rest (remove name m)
        | false ↦ (m, err remove_failed)
      ]
    ]
  ]

  -- The sync of the directory behind the loop.
  unfoldable pub synced_after :
      Table F × Result PruneError SweepResult → Table F × Result PruneError SweepResult
  synced_after (m, err e) = (m, err e)
  synced_after (m, ok s) = (m, do refuse_if (ltb 0 s.removed && not r.synced) sync_failed; ok s)

  -- sweep
  unfoldable pub sweep : Table F → Table F × Result PruneError SweepResult
  unfolding sweep_names synced_after
  sweep m = synced_after (sweep_names (record { removed = 0; unreadable = [] }) (table_names m) m)

  -- What a sweep does to one file: nothing, or it removes it, and then it was expired.
  abbrev pub SweptFrom : Option F → Option F → Type 0
  SweptFrom f g = (g ≡ f) ⊎ ((g ≡ none) × (expired f ≡ some true))

  SweptFrom-removed :
      (k name : Bytes) (m : Table F) (g : Option F)
      → expired (get name m) ≡ some true
      → SweptFrom (get k (remove name m)) g
      → SweptFrom (get k m) g
  SweptFrom-removed k name m g e s = elim (Bool-cases (eq_bytes name k)) [
    | inr other ↦ subst (λ z. SweptFrom z g) (rw (get-remove, other) refl) s
    | inl same ↦
        let gone : get k (remove name m) ≡ none = rw (get-remove, same) refl in
        let over = ap (λ z. expired (get z m)) (sym (eq_bytes→eq name k same)) ∙ e in
        elim s [ inl q ↦ inr (q ∙ gone, over) | inr (q, _) ↦ inr (q, over) ]
  ]

  SweptFrom-sweep_names :
      (k : Bytes) (s : SweepResult) (names : List Bytes) (m : Table F)
      → SweptFrom (get k m) (get k (sweep_names s names m).0)
  unfolding sweep_names
  SweptFrom-sweep_names k s [] m = inl refl
  SweptFrom-sweep_names k s (name ∷ rest) m =
      at (expired (get name m)) refl (λ s' m'. SweptFrom-sweep_names k s' rest m')
    where
      at :
          (x : Option Bool)
          → expired (get name m) ≡ x
          → ((s' : SweepResult) (m' : Table F)
              → SweptFrom (get k m') (get k (sweep_names s' rest m').0))
          → SweptFrom (get k m) (get k (sweep_names s (name ∷ rest) m).0)
      at none e more = rw (e, sweep_names) (more _ m)
      at (some false) e more = rw (e, sweep_names) (more s m)
      at (some true) e more = elim (Bool-cases (r.removes name)) [
        | inl can ↦
            rw (e, can, sweep_names) (SweptFrom-removed k name m _ e (more _ (remove name m)))
        | inr cannot ↦ rw (e, cannot, sweep_names) (inl refl)
      ]

  pub SweptFrom-sweep : (k : Bytes) (m : Table F) → SweptFrom (get k m) (get k (sweep m).0)
  unfolding sweep
  SweptFrom-sweep k m = rw (synced_after-table _) (SweptFrom-sweep_names k _ (table_names m) m)
    where
      synced_after-table : (c : Table F × Result PruneError SweepResult) → (synced_after c).0 ≡ c.0
      synced_after-table (m, ok s) = unfold synced_after in refl
      synced_after-table (m, err e) = unfold synced_after in refl
