-- ===== src/Negotiation/Budget/Sums.antt =====
-- The holds of a budget as a map with a sum.
use tos_messenger.Base.{
  subst, is_some, ℕ, ◌+◌, ◌≤◌, ◌≡◌, refl, ◌∙◌, Bool, false, Option, none, some, [], ◌∷◌,
  if◌then◌else◌, Bytes, eq_bytes, eq_bytes→eq, eq_bytes_refl, ok, arith, All, length, sort_by,
  insert_by, Bool-cases, >>=-eq-ok, suc, inl, inr,
}
use tos_messenger.Negotiation.Money.{Money, Asset, add_money}
use tos_messenger.Negotiation.Exact.{IsValid, amount, add_money_exact}
use tos_messenger.Negotiation.Budget.{Holds, lookup, put, delete, sum_holds}

-- A valid amount of the asset.
abbrev pub Is : Asset → Money → Type 0
Is asset m = IsValid m × (m.asset ≡ asset)

abbrev pub AllOf : Asset → Holds → Type 0
AllOf asset m = All (λ h. Is asset h.1) m

abbrev pub total_held : Holds → ℕ
total_held [] = 0
total_held ((k, v) ∷ m) = amount v + total_held m

abbrev held_by : Option Money → ℕ
held_by none = 0
held_by (some v) = amount v

pub total_held-insert_by :
    (less : Bytes × Money → Bytes × Money → Bool) (k : Bytes) (v : Money) (m : Holds)
    → total_held (insert_by less (k, v) m) ≡ amount v + total_held m
unfolding insert_by
total_held-insert_by less k v [] = refl
total_held-insert_by less k v ((j, w) ∷ m) = ground (arith, total_held-insert_by less k v m)

-- The order of the holds does not change their sum.
pub total_held-sort_by :
    (less : Bytes × Money → Bytes × Money → Bool) (m : Holds)
    → total_held (sort_by less m) ≡ total_held m
unfolding sort_by
total_held-sort_by less [] = refl
total_held-sort_by less ((k, v) ∷ m) =
    omega (arith, total_held-insert_by less k v (sort_by less m), total_held-sort_by less m)

pub sum_holds_exact :
    (m : Holds) (t s : Money)
    → IsValid t
    → sum_holds t m ≡ ok s
    → IsValid s × (s.asset ≡ t.asset) × (amount s ≡ amount t + total_held m)
unfolding sum_holds
sum_holds_exact [] t s valid h = ground arith
sum_holds_exact ((k, v) ∷ m) t s valid h =
    let (r, e, rest) = >>=-eq-ok (add_money t v) _ h in
    let (rv, ra, same, rs) = add_money_exact t v r e in
    let (sv, sa, ss) = sum_holds_exact m r s rv rest in (sv, sa ∙ ra, omega arith)

module _ (k : Bytes) (v : Money) where
  pub total_held-put :
      (m : Holds) → total_held (put k v m) + held_by (lookup k m) ≡ total_held m + amount v
  unfolding put lookup
  total_held-put [] = omega arith
  total_held-put ((j, w) ∷ m) = ground (arith, total_held-put m)

  pub lookup-put :
      (j : Bytes) (m : Holds) → lookup j (put k v m) ≡ (if eq_bytes k j then some v else lookup j m)
  unfolding put lookup
  lookup-put j [] = refl
  lookup-put j ((i, w) ∷ m) = ground (
    arith,
    lookup-put j m,
    eq_bytes→eq i k,
    eq_bytes→eq k j,
    eq_bytes→eq i j,
    eq_bytes_refl k,
    eq_bytes_refl j,
  )

  pub AllOf-put : (asset : Asset) (m : Holds) → Is asset v → AllOf asset m → AllOf asset (put k v m)
  unfolding put
  AllOf-put asset [] h a = (h, tt)
  AllOf-put asset ((j, w) ∷ m) h a = elim (Bool-cases (eq_bytes j k)) [
    | inl e ↦ rw e (h, a.1)
    | inr e ↦ rw e (a.0, AllOf-put asset m h a.1)
  ]

  pub length-put :
      (m : Holds) → length (put k v m) ≡ (if is_some (lookup k m) then length m else suc (length m))
  unfolding put lookup
  length-put [] = refl
  length-put ((j, w) ∷ m) = ground (arith, length-put m)

  -- Restoring what stood under the key undoes a write.
  pub delete-put : (m : Holds) → lookup k m ≡ none → delete k (put k v m) ≡ m
  unfolding put lookup delete
  delete-put [] h = rw (eq_bytes_refl k) refl
  delete-put ((j, w) ∷ m) h = ground (arith, delete-put m)

  pub put-put : (w : Money) (m : Holds) → lookup k m ≡ some w → put k w (put k v m) ≡ m
  unfolding put lookup
  put-put w [] h = cc
  put-put w ((j, x) ∷ m) h = ground (arith, put-put w m, eq_bytes→eq j k)

module _ (k : Bytes) where
  pub total_held-delete :
      (m : Holds) → total_held (delete k m) + held_by (lookup k m) ≡ total_held m
  unfolding delete lookup
  total_held-delete [] = omega arith
  total_held-delete ((j, w) ∷ m) = ground (arith, total_held-delete m)

  pub AllOf-delete : (asset : Asset) (m : Holds) → AllOf asset m → AllOf asset (delete k m)
  unfolding delete
  AllOf-delete asset [] a = tt
  AllOf-delete asset ((j, w) ∷ m) a = elim (Bool-cases (eq_bytes j k)) [
    | inl e ↦ rw e a.1
    | inr e ↦ rw e (a.0, AllOf-delete asset m a.1)
  ]

  pub length-delete : (m : Holds) → length (delete k m) ≤ length m
  unfolding delete
  length-delete [] = omega arith
  length-delete ((j, w) ∷ m) = ground (arith, length-delete m)

  pub Is-lookup :
      (asset : Asset) (v : Money) (m : Holds) → AllOf asset m → lookup k m ≡ some v → Is asset v
  unfolding lookup
  Is-lookup asset v [] a h = cc
  Is-lookup asset v ((j, w) ∷ m) a h = elim (Bool-cases (eq_bytes j k)) [
    | inl e ↦
        let found : some w ≡ some v = rw e at h in
        let same : w ≡ v = ground arith in subst (Is asset) same a.0
    | inr e ↦ Is-lookup asset v m a.1 (rw e at h)
  ]

  pub lookup-delete_ne :
      (j : Bytes) (m : Holds) → eq_bytes k j ≡ false → lookup j (delete k m) ≡ lookup j m
  unfolding delete lookup
  lookup-delete_ne j [] h = refl
  lookup-delete_ne j ((i, w) ∷ m) h =
      ground (arith, lookup-delete_ne j m h, eq_bytes→eq i k, eq_bytes→eq i j, eq_bytes_refl j)

  pub length-delete_found :
      (v : Money) (m : Holds) → lookup k m ≡ some v → suc (length (delete k m)) ≡ length m
  unfolding delete lookup
  length-delete_found v [] h = cc
  length-delete_found v ((j, w) ∷ m) h = ground (arith, length-delete_found v m)
