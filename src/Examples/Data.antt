-- ===== src/Examples/Data.antt =====
-- The concrete values that the examples share.
use tos_messenger.Base.{is_hash, is_prefixed_hash, is_atomic}
use tos_messenger.Negotiation.Amount.{atomic_value}
use tos_messenger.Negotiation.Money.{validate_money, validate_asset, validate_network}
use tos_messenger.Negotiation.Budget.Invariant.{IsSound}
use tos_messenger.Base.{
  ℕ, zero, suc, ◌+◌, ◌%◌, ◌≡◌, refl, true, false, none, some, [], ◌∷◌, ◌++◌, Bytes, codes, All,
  length, arith, pos, ok, Time,
}
use tos_messenger.Canon.Encode.{Hash, sha256_prefix}
use tos_messenger.Canon.Hex.{IsByte}
use tos_messenger.Negotiation.Money.{Network, Asset, Money, code_hash_prefix}
use tos_messenger.Negotiation.Terms.{Terms, agent_prefix, capability_prefix}
use tos_messenger.Negotiation.Mandate.{Mandate, commit}
use tos_messenger.Negotiation.Budget.{Budget, Ledger}
use tos_messenger.Negotiation.Quote.{VerifiedAcceptedQuote}
use tos_messenger.Negotiation.State.{Negotiation, Env, World, canonicalization_pending}

abbrev pub repeat : ℕ → ℕ → Bytes
repeat zero b = []
repeat (suc n) b = b ∷ repeat n b

unfoldable pub total_byte : ℕ → Bytes → ℕ
total_byte acc [] = acc % 256
total_byte acc (b ∷ bs) = total_byte (acc + b) bs

total_byte-IsByte : (acc : ℕ) (bs : Bytes) → IsByte (total_byte acc bs)
unfolding total_byte
total_byte-IsByte acc [] = omega arith
total_byte-IsByte acc (b ∷ bs) = total_byte-IsByte (acc + b) bs

repeat-IsByte : (n b : ℕ) → IsByte b → All IsByte (repeat n b)
repeat-IsByte zero b h = tt
repeat-IsByte (suc n) b h = (h, repeat-IsByte n b h)

unfoldable pub toy_sum : Bytes → Bytes
toy_sum bs = repeat 32 (total_byte 0 bs)

pub length-toy_sum : (bs : Bytes) → length (toy_sum bs) ≡ 32
unfolding toy_sum
length-toy_sum bs = refl

pub toy_sum_bytes : (bs : Bytes) → All IsByte (toy_sum bs)
unfolding toy_sum
toy_sum_bytes bs = repeat-IsByte 32 (total_byte 0 bs) (total_byte-IsByte 0 bs)

-- A function with the shape of SHA-256: every byte is the sum of the input's bytes.
instance abbrev pub toy_hash : Hash
toy_hash = record { sum = toy_sum; sum_length = length-toy_sum; sum_bytes = toy_sum_bytes }

abbrev pub hex64 : Bytes
hex64 = repeat 64 b'a'

abbrev pub home : Network
home = record { id = codes "tos"; genesis_root_hash = hex64; genesis_file_hash = hex64 }

abbrev pub token : Asset
token = record {
  network = home;
  workchain = pos 0;
  account_id = hex64;
  master_code_hash = code_hash_prefix ++ hex64;
  wallet_code_hash = code_hash_prefix ++ hex64;
  decimals = 2;
}

abbrev pub coins : Bytes → Money
coins s = record { asset = token; atomic = s }

abbrev pub provider : Bytes
provider = agent_prefix ++ hex64

abbrev pub some_digest : Bytes
some_digest = sha256_prefix ++ hex64

abbrev pub deal : Terms
deal = record {
  capability_id = capability_prefix ++ hex64;
  capability_version = codes "1";
  capability_class = codes "compute.gpu";
  provider_agent_id = provider;
  manifest_digest = some_digest;
  transport_binding_digest = some_digest;
  price = coins (codes "40");
  escrow_terms_digest = some_digest;
  dispute_policy_digest = some_digest;
  not_after_unix = 900;
}

abbrev pub allowance : Mandate
allowance = record {
  objective = codes "train";
  authority = commit;
  capability_class = codes "compute.gpu";
  max_total = coins (codes "100");
  approval_above = coins (codes "50");
  max_counteroffers = 3;
  expires_at_unix = 1000;
}

abbrev pub noon : Time
noon = pos 500

abbrev pub calm_ledger : Ledger
calm_ledger = record { load = ok none; record_state = λ s. true }

abbrev pub torn_ledger : Ledger
torn_ledger = record { load = ok none; record_state = λ s. false }

abbrev pub calm : Env
calm = record { save = λ s. true; ledger = calm_ledger }

abbrev pub exchange_id : Bytes
exchange_id = codes "exchange"

abbrev pub held_budget : Budget
held_budget = record {
  total = coins (codes "100");
  spent = coins (codes "10");
  reserved = (exchange_id, coins (codes "40")) ∷ (codes "other", coins (codes "20")) ∷ [];
}

abbrev pub chain_quote : VerifiedAcceptedQuote
chain_quote = record {
  commitment = some_digest;
  terms = deal;
  reference = some 7;
  network = some home;
  finalized_at_unix = 450;
}

abbrev pub pending : Negotiation
pending = record {
  id = exchange_id;
  conversation_id = codes "conv_" ++ hex64;
  counterparty_agent_id = provider;
  mandate = allowance;
  state = canonicalization_pending;
  generation = 0;
  counteroffers = 1;
  on_table = some deal;
  agreed = some deal;
  needs_approval = false;
  network = some home;
  approval = none;
  commitment = [];
  quote = none;
  failure = [];
  has_budget = true;
  poisoned = false;
}

abbrev pub pending_world : World
pending_world = record { negotiation = pending; budget = held_budget }

pub held_budget-IsSound : IsSound held_budget
unfolding validate_money validate_asset validate_network is_hash is_prefixed_hash is_atomic
    atomic_value
held_budget-IsSound = record {
  total_valid = refl;
  spent_is = (refl, refl);
  holds_are = ((refl, refl), ((refl, refl), tt));
  within = omega arith;
  few = omega arith;
}
