-- ===== src/Firewall/Policy.antt =====
-- pkg/firewall/firewall.go: effects, their order, and the owner's policy.
use tos_messenger.Base.{
  ℕ, Bool, true, false, ◌&&◌, Bytes, eq_bytes, ltb, leb, ◌==◌, Result, require, refuse_if, ◌>>◌,
}

-- `unknown_effect` stands for every string that is no key of `rank`.
pub data Effect : Type 0 where
  no_effect local_read local_write message tool_call physical_io spend key_use configuration :
      Effect
  unknown_effect : Bytes → Effect

-- rank; a Go map gives 0 for a missing key.
abbrev pub rank : Effect → ℕ
rank no_effect = 0
rank local_read = 1
rank local_write = 2
rank message = 3
rank tool_call = 4
rank spend = 5
rank key_use = 6
rank physical_io = 7
rank configuration = 8
rank (unknown_effect name) = 0

-- Known
abbrev pub known : Effect → Bool
known (unknown_effect name) = false
known _ = true

-- atLeast
abbrev pub at_least : Effect → Effect → Bool
at_least effect floor = leb (rank floor) (rank effect)

-- `==` on effects.
abbrev pub same_effect : Effect → Effect → Bool
same_effect (unknown_effect a) (unknown_effect b) = eq_bytes a b
same_effect (unknown_effect a) _ = false
same_effect _ (unknown_effect b) = false
same_effect a b = rank a == rank b

pub record Policy : Type 0 where
  pub unattended_ceiling : Effect
  pub own_initiative_ceiling : Effect

pub data PolicyError : Type 0 where
  unknown_ceiling unattended_key self_configuration trusted_further not_a_spend : PolicyError

-- Policy.Validate
unfoldable pub validate_policy : Policy → Result PolicyError (Unit {0})
validate_policy p = do
  require (known p.unattended_ceiling && known p.own_initiative_ceiling) unknown_ceiling
  refuse_if (at_least p.unattended_ceiling key_use) unattended_key
  refuse_if (at_least p.own_initiative_ceiling configuration) self_configuration
  refuse_if (ltb (rank p.own_initiative_ceiling) (rank p.unattended_ceiling)) trusted_further

-- Default
abbrev pub default_policy : Policy
default_policy = record { unattended_ceiling = message; own_initiative_ceiling = tool_call }
