-- ===== src/Room/Delegation.antt =====
-- pkg/identity/delegation.go: what the room asks of an Endpoint's delegation. crypto/ed25519 is the
-- parameter `Ed25519`; a private key stands for its public half and its signatures.
use tos_messenger.Base.{
  ℕ, Bool, true, ◌||◌, not, Option, none, some, List, [], ◌∷◌, ◌++◌, ◌≡◌, ltb, leb, ◌==◌, Bytes,
  codes, length, Result, ok, err, require, refuse_if, map_err, ◌>>=◌, ◌>>◌, Time, unix_seconds,
}
use tos_messenger.Canon.Hex.{hex_encode}
use tos_messenger.Canon.Encode.{Hash, text, hash32, is_zero}
use tos_messenger.Negotiation.Money.{NetworkDomain, Network, validate_network}
use tos_messenger.Room.Membership.{is_agent}

-- What was signed verifies, and a signature has 64 bytes.
pub record Ed25519 : Type 0 where
  pub public : Bytes → Bytes
  pub sign : Bytes → Bytes → Bytes
  pub verify : Bytes → Bytes → Bytes → Bool
  pub verify_sign : (key message : Bytes) → verify (public key) message (sign key message) ≡ true
  pub sign_length : (key message : Bytes) → length (sign key message) ≡ 64

pub data DelegationError : Type 0 where
  bad_time not_yet expired bad_network bad_agent bad_key no_key other_endpoint bad_hash :
      DelegationError

pub record Delegation : Type 0 where
  pub network : NetworkDomain
  pub agent_id : Bytes
  pub endpoint_id : Bytes
  pub identity_public_key : Bytes
  pub adnl_id : Bytes
  pub allowed_protocol_versions : List ℕ
  pub allowed_outbound_event_classes : List Bytes
  pub not_before_unix : ℕ  -- uint64
  pub expires_at_unix : ℕ  -- uint64
  pub maximum_session_lifetime_seconds : ℕ  -- uint64
  pub contact_descriptor_policy_digest : Bytes
  pub inbox_admission_policy_digest : Bytes

window_at : Delegation → Option ℕ → Result DelegationError (Unit {0})
window_at d none = err bad_time
window_at d (some now) = do
  refuse_if (ltb now d.not_before_unix) not_yet
  refuse_if (leb d.expires_at_unix now) expired

-- CheckWindow
unfoldable pub check_window : Delegation → Time → Result DelegationError (Unit {0})
unfolding window_at
check_window d now = window_at d (unix_seconds now)

-- validateNetwork
unfoldable pub delegation_network : NetworkDomain → Result DelegationError Network
delegation_network none = err bad_network
delegation_network (some n) = do map_err (λ _. bad_network) (validate_network n); ok n

abbrev pub domain_endpoint_id : Bytes
domain_endpoint_id = codes "tos.messaging.endpoint-id.v2" ++ 0 ∷ []

module _ ⦃h : Hash⦄ where
  -- DeriveEndpointID, and validateKey in it.
  unfoldable pub derive_endpoint_id : NetworkDomain → Bytes → Bytes → Result DelegationError Bytes
  unfolding delegation_network
  derive_endpoint_id domain agent key = do
    n ← delegation_network domain
    require (is_agent agent) bad_agent
    refuse_if (not (length key == 32) || is_zero key) bad_key
    root ← map_err (λ _. bad_hash) (hash32 n.genesis_root_hash)
    file ← map_err (λ _. bad_hash) (hash32 n.genesis_file_hash)
    ok (
        codes "mep_"
        ++ hex_encode
            (h.sum (domain_endpoint_id ++ (text n.id ++ (root ++ (file ++ (text agent ++ key)))))))
