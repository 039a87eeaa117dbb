-- ===== src/Providers/Usage.antt =====
-- kanbrick-providers/src/lib.rs, `Usage`: disjoint token counts, in `u64`.
use kanbrick_v.Common.{ℕ, ◌+◌, ◌≤◌, ◌≡◌, sat_add, sat_sub, u64_max, arith}

pub record Usage : Type 0 where
  pub input : ℕ
  pub output : ℕ
  pub cache_read : ℕ
  pub cache_write : ℕ
  pub reasoning : ℕ

-- `Usage::default`
abbrev pub no_usage : Usage
no_usage = record { input = 0; output = 0; cache_read = 0; cache_write = 0; reasoning = 0 }

unfoldable pub from_inclusive : ℕ → ℕ → ℕ → ℕ → ℕ → Usage
from_inclusive prompt_tokens cached_tokens cache_write completion_tokens reasoning_tokens = record {
  input = sat_sub prompt_tokens cached_tokens;
  output = sat_sub completion_tokens reasoning_tokens;
  cache_read = cached_tokens;
  cache_write = cache_write;
  reasoning = reasoning_tokens;
}

unfoldable pub total_input : Usage → ℕ
total_input u = sat_add (sat_add u.input u.cache_read) u.cache_write

unfoldable pub total_output : Usage → ℕ
total_output u = sat_add u.output u.reasoning

unfoldable pub total : Usage → ℕ
unfolding total_input total_output
total u = sat_add (total_input u) (total_output u)

unfoldable pub accumulate : Usage → Usage → Usage
accumulate self other = record {
  input = sat_add self.input other.input;
  output = sat_add self.output other.output;
  cache_read = sat_add self.cache_read other.cache_read;
  cache_write = sat_add self.cache_write other.cache_write;
  reasoning = sat_add self.reasoning other.reasoning;
}

-- The mapping of inclusive counts to disjoint buckets counts nothing twice: where the subsets fit
-- in their totals and the sum fits in a `u64`, the grand total is what the provider reported plus
-- the cache writes.
pub total-from_inclusive :
    (prompt cached write completion reasoning : ℕ)
    → cached ≤ prompt
    → reasoning ≤ completion
    → prompt + write + completion ≤ u64_max
    → total (from_inclusive prompt cached write completion reasoning) ≡ prompt + write + completion
unfolding total from_inclusive
total-from_inclusive prompt cached write completion reasoning h k m = omega arith
