-- ===== src/Core/Errors.antt =====
-- src/core/errors.ts: the errors of the API client, by what tells them apart. A message that is put
-- together for the reader is left out; the detail that the server gave is kept.
use pve_agent.Base.{Text, ℕ, Bool, true, false}

pub data AuthTier : Type 0 where
  token_tier ticket_tier : AuthTier

pub data PveErrorKind : Type 0 where
  config_kind connection_kind auth_kind tier_kind permission_kind not_found_kind api_kind :
      PveErrorKind

pub data PveError : Type 0 where
  config_error connection_error : Text → PveError
  auth_error : AuthTier → Text → PveError
  tier_error : (required : AuthTier) → PveError
  permission_error : (method path : Text) → AuthTier → Text → PveError
  not_found_error : (method path : Text) → Text → PveError
  api_error : (status : ℕ) → (method path : Text) → Text → PveError

unfoldable pub kind_of : PveError → PveErrorKind
kind_of (config_error what) = config_kind
kind_of (connection_error url) = connection_kind
kind_of (auth_error tier detail) = auth_kind
kind_of (tier_error required) = tier_kind
kind_of (permission_error method path tier detail) = permission_kind
kind_of (not_found_error method path detail) = not_found_kind
kind_of (api_error status method path detail) = api_kind

abbrev pub tier_eq : AuthTier → AuthTier → Bool
tier_eq token_tier token_tier = true
tier_eq ticket_tier ticket_tier = true
tier_eq _ _ = false
