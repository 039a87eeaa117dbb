-- ===== src/Providers.antt =====
-- kanbrick-providers/src/lib.rs: provider kinds, errors and normalized token usage.
pub mod Usage
use kanbrick_v.Common.{ℕ, Text, codes, Bool, true, false, ◌≡◌, ◌↔◌, Eq, arith}

pub data ProviderKind : Type 0 where
  anthropic open_ai cerebras : ProviderKind

-- `ProviderKind::as_str`
unfoldable pub provider_token : ProviderKind → Text
provider_token anthropic = codes "anthropic"
provider_token open_ai = codes "openai"
provider_token cerebras = codes "cerebras"

pub data ProviderError : Type 0 where
  transport : Text → ProviderError
  auth rate_limited : ProviderError
  api : ℕ → Text → ProviderError
  decode unsupported : Text → ProviderError

abbrev pub provider_beq : ProviderKind → ProviderKind → Bool
provider_beq anthropic anthropic = true
provider_beq open_ai open_ai = true
provider_beq cerebras cerebras = true
provider_beq _ _ = false

pub provider_beq_iff : (a b : ProviderKind) → (provider_beq a b ≡ true) ↔ (a ≡ b)
provider_beq_iff anthropic b = ground arith
provider_beq_iff a b = ground arith

instance abbrev pub provider_eq : Eq ProviderKind
provider_eq = record { beq = provider_beq; beq_iff = provider_beq_iff }
