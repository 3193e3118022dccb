-- ===== src/Negotiation/Exact.antt =====
-- The laws of exact amounts.
use tos_messenger.Base.{
  subst, ℕ, ◌+◌, ◌≡◌, refl, ap, ◌↔◌, Bool, true, leb, eq_bytes→eq, eq_bytes_refl, is_atomic, ℤ, pos,
  negsuc, eq_ℤ, ok, arith,
}
use tos_messenger.Negotiation.Amount.{atomic_value, atomic_value-decimal, atomic_value-injective}
use tos_messenger.Negotiation.Money.{
  Network, Asset, Money, same_network, same_asset, validate_money, new_money, money_int, at_most,
  add_money, equal_money,
}

eq_ℤ→eq : (a b : ℤ) → eq_ℤ a b ≡ true → a ≡ b
eq_ℤ→eq (pos a) (pos b) h = ground arith
eq_ℤ→eq (negsuc a) (negsuc b) h = ground arith
eq_ℤ→eq (pos a) (negsuc b) h = cc
eq_ℤ→eq (negsuc a) (pos b) h = cc

eq_ℤ-refl : (a : ℤ) → eq_ℤ a a ≡ true
eq_ℤ-refl (pos a) = ground arith
eq_ℤ-refl (negsuc a) = ground arith

pub same_network→eq : (a b : Network) → same_network a b ≡ true → a ≡ b
unfolding same_network
same_network→eq a b h = ground (
  arith,
  eq_bytes→eq a.id b.id,
  eq_bytes→eq a.genesis_root_hash b.genesis_root_hash,
  eq_bytes→eq a.genesis_file_hash b.genesis_file_hash,
)

pub same_network_refl : (a : Network) → same_network a a ≡ true
unfolding same_network
same_network_refl a =
    rw (eq_bytes_refl a.id, eq_bytes_refl a.genesis_root_hash, eq_bytes_refl a.genesis_file_hash)
      refl

-- `Asset.Same` holds of equal identities only.
pub same_asset→eq : (a b : Asset) → same_asset a b ≡ true → a ≡ b
unfolding same_asset
same_asset→eq a b h = ground (
  arith,
  same_network→eq a.network b.network,
  eq_ℤ→eq a.workchain b.workchain,
  eq_bytes→eq a.account_id b.account_id,
  eq_bytes→eq a.master_code_hash b.master_code_hash,
  eq_bytes→eq a.wallet_code_hash b.wallet_code_hash,
)

pub same_asset_refl : (a : Asset) → same_asset a a ≡ true
unfolding same_asset
same_asset_refl a = ground (
  arith,
  same_network_refl a.network,
  eq_ℤ-refl a.workchain,
  eq_bytes_refl a.account_id,
  eq_bytes_refl a.master_code_hash,
  eq_bytes_refl a.wallet_code_hash,
)

abbrev pub IsValid : Money → Type 0
IsValid m = validate_money m ≡ ok tt

abbrev pub amount : Money → ℕ
amount m = atomic_value m.atomic

pub is_atomic_of_IsValid : (m : Money) → IsValid m → is_atomic m.atomic ≡ true
unfolding validate_money
is_atomic_of_IsValid m h = ground arith

pub money_int-eq-ok : (m : Money) {n : ℕ} → money_int m ≡ ok n → IsValid m × (n ≡ amount m)
unfolding money_int
money_int-eq-ok m h = ground arith

pub money_int_of_IsValid : (m : Money) → IsValid m → money_int m ≡ ok (amount m)
unfolding money_int
money_int_of_IsValid m h = rw h refl

-- A comparison is answered exactly for two valid amounts of one asset, and the answer is whether the
-- first count is at most the second.
pub at_most_lem :
    (m ceiling : Money) (b : Bool)
    → (at_most m ceiling ≡ ok b) ↔ (
        IsValid m
        × IsValid ceiling
        × (m.asset ≡ ceiling.asset)
        × (b ≡ leb (amount m) (amount ceiling)))
unfolding at_most money_int
at_most_lem m ceiling b = (
  (λ h. ground (arith, same_asset→eq m.asset ceiling.asset)),
  (λ p. rw (p.0, p.1, p.2, p.3, same_asset_refl) refl),
)

new_money-eq-ok :
    (asset : Asset) (n : ℕ) {r : Money}
    → new_money asset (pos n) ≡ ok r
    → IsValid r × (r.asset ≡ asset) × (amount r ≡ n)
unfolding new_money
new_money-eq-ok asset n h = ground (arith, atomic_value-decimal n)

-- A sum that is given is a valid amount of the asset of both addends, and its count is the sum of
-- their counts.
pub add_money_exact :
    (m other r : Money)
    → add_money m other ≡ ok r
    → IsValid r
      × (r.asset ≡ m.asset)
      × (m.asset ≡ other.asset)
      × (amount r ≡ amount m + amount other)
unfolding add_money money_int
add_money_exact m other r h = ground (
  arith,
  same_asset→eq m.asset other.asset,
  new_money-eq-ok m.asset (amount m + amount other) {r = r},
)

pub equal_money→eq : (m other : Money) → equal_money m other ≡ true → m ≡ other
unfolding equal_money
equal_money→eq m other h =
    ground (arith, same_asset→eq m.asset other.asset, eq_bytes→eq m.atomic other.atomic)

equal_money_refl : (m : Money) → equal_money m m ≡ true
unfolding equal_money
equal_money_refl m = rw (same_asset_refl m.asset, eq_bytes_refl m.atomic) refl

eq_of_amount :
    (m other : Money)
    → IsValid m
    → IsValid other
    → m.asset ≡ other.asset
    → amount m ≡ amount other
    → m ≡ other
eq_of_amount m other v w e f =
    let g =
      atomic_value-injective m.atomic other.atomic (is_atomic_of_IsValid m v)
        (is_atomic_of_IsValid other w) f in
    λ i. record { asset = e i; atomic = g i }

-- Two valid amounts are `Equal` exactly when they are of one asset and have one count, and exactly
-- when they are the same in every byte.
pub equal_money_lem :
    (m other : Money)
    → IsValid m
    → IsValid other
    → ((equal_money m other ≡ true) ↔ ((m.asset ≡ other.asset) × (amount m ≡ amount other)))
      × ((equal_money m other ≡ true) ↔ (m ≡ other))
equal_money_lem m other v w = (
  (
    (λ h. let e = equal_money→eq m other h in (ap (λ (x : Money). x.asset) e, ap amount e)),
    (λ p. equal (eq_of_amount m other v w p.0 p.1)),
  ),
  (equal_money→eq m other, equal),
)
  where
    equal : m ≡ other → equal_money m other ≡ true
    equal e = subst (λ x. equal_money m x ≡ true) e (equal_money_refl m)
