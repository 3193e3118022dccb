-- ===== src/Fault/Response.antt =====
-- pkg/fault/response.go, without its JSON form.
use tos_messenger.Base.{
  ℕ, ◌*◌, Bool, false, ◌||◌, not, Option, none, some, ltb, ◌==◌, if◌then◌else◌, Result, ok, err,
  refuse_if, require, ◌>>◌,
}
use tos_messenger.Fault.Codes.{Code, rejected, Spec, registry, peer_visible, GoError, code_of}

abbrev pub max_retry_after_seconds : ℕ
max_retry_after_seconds = 24 * 60 * 60

pub record Response : Type 0 where
  pub code : Code
  pub retry_after_seconds : ℕ  -- uint32

hint_of : Option Spec → Bool
hint_of none = false
hint_of (some s) = s.retry_hint

-- PeerCode
unfoldable pub peer_code : Code → ℕ → Response
unfolding hint_of
peer_code code seconds =
    if not (peer_visible code)
    then record { code = rejected; retry_after_seconds = 0 }
    else if not (hint_of (registry code)) || seconds == 0
    then record { code = code; retry_after_seconds = 0 }
    else if ltb max_retry_after_seconds seconds
    then record { code = code; retry_after_seconds = max_retry_after_seconds }
    else record { code = code; retry_after_seconds = seconds }

-- Peer
unfoldable pub peer : GoError → ℕ → Response
peer e seconds = peer_code (code_of e) seconds

pub data ResponseError : Type 0 where
  unknown_code undisclosable_code no_retry_hint hint_over_bound : ResponseError

validate_classified : Spec → ℕ → Result ResponseError (Unit {0})
validate_classified s seconds = do
  require s.peer_visible undisclosable_code
  if seconds == 0 then ok tt else do
    require s.retry_hint no_retry_hint
    refuse_if (ltb max_retry_after_seconds seconds) hint_over_bound

-- ValidateResponse
unfoldable pub validate_response : Response → Result ResponseError (Unit {0})
unfolding validate_classified
validate_response r = elim (registry r.code) [
  | none ↦ err unknown_code
  | some s ↦ validate_classified s r.retry_after_seconds
]
