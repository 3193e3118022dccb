-- ===== src/Negotiation/Money.antt =====
-- pkg/negotiation/network.go and money.go. A nil `*NetworkDomain` is `none`; the protocol form and
-- the value form of a network have the same three fields.
use tos_messenger.Base.{
  ℕ, ◌+◌, Bool, ◌&&◌, ◌||◌, not, Option, none, some, ◌++◌, ltb, leb, ◌==◌, Bytes, codes, length,
  eq_bytes, is_hash, is_prefixed_hash, is_atomic, ℤ, pos, negsuc, eq_ℤ, u32_of_ℤ, Result, ok, err,
  require, refuse_if, map_err, ◌>>=◌, ◌>>◌,
}
use tos_messenger.Canon.Encode.{uint32, text, hash32, CanonError}
use tos_messenger.Negotiation.Amount.{atomic_value, decimal}
use tos_messenger.Negotiation.Errors.{
  too_precise, no_wallet_code, no_master_code, no_account, bad_workchain, different_assets,
  negative_amount, not_canonical_amount, invalid_network, asset_without_network, NegotiationError,
}

pub record Network : Type 0 where
  pub id : Bytes
  pub genesis_root_hash : Bytes
  pub genesis_file_hash : Bytes

abbrev pub NetworkDomain : Type 0
NetworkDomain = Option Network

-- `s == "" || len(s) > bound`
abbrev pub is_out_of_bounds : ℕ → Bytes → Bool
is_out_of_bounds bound s = length s == 0 || ltb bound (length s)

-- Network.Validate
unfoldable pub validate_network : Network → Result NegotiationError (Unit {0})
validate_network n =
    refuse_if
      (is_out_of_bounds 128 n.id
        || not (is_hash n.genesis_root_hash)
        || not (is_hash n.genesis_file_hash))
      invalid_network

-- Network.Same; sameNetwork on two domains that are not nil.
unfoldable pub same_network : Network → Network → Bool
same_network a b =
    eq_bytes a.id b.id
    && eq_bytes a.genesis_root_hash b.genesis_root_hash
    && eq_bytes a.genesis_file_hash b.genesis_file_hash

-- Network.canonical
unfoldable pub canonical_network : Network → Result CanonError Bytes
canonical_network n = do
  root ← hash32 n.genesis_root_hash
  file ← hash32 n.genesis_file_hash
  ok (text n.id ++ (root ++ file))

-- NetworkFromDomain, and validateNetworkDomain before it.
unfoldable pub network_from_domain : NetworkDomain → Result NegotiationError Network
network_from_domain none = err invalid_network
network_from_domain (some n) = do validate_network n; ok n

abbrev pub max_decimals : ℕ
max_decimals = 36

pub record Asset : Type 0 where
  pub network : Network
  pub workchain : ℤ  -- int32
  pub account_id : Bytes
  pub master_code_hash : Bytes
  pub wallet_code_hash : Bytes
  pub decimals : ℕ  -- uint32

abbrev pub code_hash_prefix : Bytes
code_hash_prefix = codes "tvm-cell-sha256:"

unfoldable pub in_workchain_range : ℤ → Bool
in_workchain_range (pos n) = leb n 127
in_workchain_range (negsuc n) = leb n 127

-- Asset.Validate
unfoldable pub validate_asset : Asset → Result NegotiationError (Unit {0})
unfolding in_workchain_range
validate_asset a = do
  map_err (λ _. asset_without_network) (validate_network a.network)
  require (in_workchain_range a.workchain) bad_workchain
  require (is_hash a.account_id) no_account
  require (is_prefixed_hash code_hash_prefix a.master_code_hash) no_master_code
  require (is_prefixed_hash code_hash_prefix a.wallet_code_hash) no_wallet_code
  refuse_if (ltb max_decimals a.decimals) too_precise

-- Asset.Same
unfoldable pub same_asset : Asset → Asset → Bool
same_asset a b =
    same_network a.network b.network
    && eq_ℤ a.workchain b.workchain
    && eq_bytes a.account_id b.account_id
    && eq_bytes a.master_code_hash b.master_code_hash
    && eq_bytes a.wallet_code_hash b.wallet_code_hash
    && a.decimals == b.decimals

-- Asset.canonical
unfoldable pub canonical_asset : Asset → Result CanonError Bytes
canonical_asset a = do
  network ← canonical_network a.network
  ok (
      network
      ++ (uint32 (u32_of_ℤ a.workchain)
          ++ (text a.account_id
              ++ (text a.master_code_hash ++ (text a.wallet_code_hash ++ uint32 a.decimals)))))

pub record Money : Type 0 where
  pub asset : Asset
  pub atomic : Bytes

-- Money.Validate
unfoldable pub validate_money : Money → Result NegotiationError (Unit {0})
validate_money m = do validate_asset m.asset; require (is_atomic m.atomic) not_canonical_amount

-- NewMoney, of a `*big.Int` that is not nil.
unfoldable pub new_money : Asset → ℤ → Result NegotiationError Money
new_money asset (negsuc n) = err negative_amount
new_money asset (pos n) =
    let value : Money = record { asset = asset; atomic = decimal n } in
    do validate_money value; ok value

-- Money.Int; a canonical amount is always a number.
unfoldable pub money_int : Money → Result NegotiationError ℕ
money_int m = do validate_money m; ok (atomic_value m.atomic)

-- Money.AtMost
unfoldable pub at_most : Money → Money → Result NegotiationError Bool
at_most m ceiling = do
  require (same_asset m.asset ceiling.asset) different_assets
  left ← money_int m
  right ← money_int ceiling
  ok (leb left right)

-- Money.Add
unfoldable pub add_money : Money → Money → Result NegotiationError Money
add_money m other = do
  require (same_asset m.asset other.asset) different_assets
  left ← money_int m
  right ← money_int other
  new_money m.asset (pos (left + right))

-- Money.Equal
unfoldable pub equal_money : Money → Money → Bool
equal_money m other = same_asset m.asset other.asset && eq_bytes m.atomic other.atomic

-- Money.Zero
unfoldable pub zero_money : Money → Money
zero_money m = record { asset = m.asset; atomic = codes "0" }

-- Money.canonical
unfoldable pub canonical_money : Money → Result CanonError Bytes
canonical_money m = do asset ← canonical_asset m.asset; ok (asset ++ text m.atomic)
