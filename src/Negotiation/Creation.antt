-- ===== src/Negotiation/Creation.antt =====
-- `New` of pkg/negotiation/negotiation.go.
use tos_messenger.Base.{
  Bool, false, Option, none, [], Bytes, codes, ◌&&◌, not, is_prefixed_hash, Result, ok, require,
  refuse_if, Time, ◌>>=◌, ◌>>◌,
}
use tos_messenger.Canon.Encode.{Hash}
use tos_messenger.Negotiation.Errors.{
  NegotiationError, bad_conversation, bad_counterparty, bad_negotiation_id, mandate_elsewhere,
  no_budget, no_store, store_failed,
}
use tos_messenger.Negotiation.Money.{
  NetworkDomain, network_from_domain, same_network, is_out_of_bounds,
}
use tos_messenger.Negotiation.Terms.{agent_prefix}
use tos_messenger.Negotiation.Mandate.{Mandate, live, is_commit}
use tos_messenger.Negotiation.State.{Negotiation, Snapshot, snapshot, given, discussing}

-- The negotiation that `New` makes.
unfoldable pub new_negotiation :
    Bytes → Bytes → Bytes → Mandate → NetworkDomain → Bool → Negotiation
new_negotiation id conversation_id counterparty mandate network has_budget = record {
  id = id;
  conversation_id = conversation_id;
  counterparty_agent_id = counterparty;
  mandate = mandate;
  state = discussing;
  generation = 0;
  counteroffers = 0;
  on_table = none;
  agreed = none;
  needs_approval = false;
  network = network;
  approval = none;
  commitment = [];
  quote = none;
  failure = [];
  has_budget = has_budget;
  poisoned = false;
}

-- New; no store is `none`.
unfoldable pub new :
    ⦃h : Hash⦄
    → Bytes
    → Bytes
    → Bytes
    → Mandate
    → NetworkDomain
    → Bool
    → Option (Snapshot → Bool)
    → Time
    → Result NegotiationError Negotiation
new id conversation_id counterparty mandate network has_budget store now = do
  require (is_prefixed_hash (codes "conv_") conversation_id) bad_conversation
  require (is_prefixed_hash agent_prefix counterparty) bad_counterparty
  refuse_if (is_out_of_bounds 128 id) bad_negotiation_id
  bound ← network_from_domain network
  live mandate now
  require (same_network mandate.max_total.asset.network bound) mandate_elsewhere
  refuse_if (is_commit mandate.authority && not has_budget) no_budget
  save ← given store no_store
  let n = new_negotiation id conversation_id counterparty mandate network has_budget
  state ← snapshot n
  require (save state) store_failed
  ok n
