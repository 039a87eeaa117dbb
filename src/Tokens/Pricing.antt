-- ===== src/Tokens/Pricing.antt =====
-- kanbrick-tokens/src/pricing.rs: the price of a call, bucket by bucket, and the price table.
use kanbrick_v.Common.{
  ℕ, ◌+◌, ◌*◌, ◌≡◌, Text, codes, [], Option, none, some, Dict, lookup, insert, lookup-insert,
  pair_eq, text_eq, sat_add, sat_mul, u64_max, arith, if◌then◌else◌, text_beq, ◌&&◌,
}
use Prim.Native.Nat.{min}
use kanbrick_v.Providers.{ProviderKind, anthropic, open_ai, cerebras, provider_eq, provider_beq}
use kanbrick_v.Providers.Usage.{Usage}

pub record ModelPrice : Type 0 where
  pub input : ℕ
  pub output : ℕ
  pub cache_read : ℕ
  pub cache_write : ℕ
  pub reasoning : ℕ

-- `ModelPrice::cost_nano`
unfoldable pub cost_nano : ModelPrice → Usage → ℕ
cost_nano p u =
    sat_add
      (sat_add
        (sat_add (sat_add (sat_mul u.input p.input) (sat_mul u.output p.output))
          (sat_mul u.cache_read p.cache_read))
        (sat_mul u.cache_write p.cache_write))
      (sat_mul u.reasoning p.reasoning)

pub record PriceTable : Type 0 where
  pub by_model : Dict (ProviderKind × Text) ModelPrice
  pub default_by_provider : Dict ProviderKind ModelPrice

-- `PriceTable::new`
abbrev pub empty_table : PriceTable
empty_table = record { by_model = []; default_by_provider = [] }

unfoldable pub with_model : ProviderKind → Text → ModelPrice → PriceTable → PriceTable
with_model provider model price t = record t {
  by_model = insert (provider, model) price t.by_model;
}

unfoldable pub with_default : ProviderKind → ModelPrice → PriceTable → PriceTable
with_default provider price t = record t {
  default_by_provider = insert provider price t.default_by_provider;
}

abbrev pub or_else {ℓ} : {A : Type ℓ} → Option A → Option A → Option A
or_else none o = o
or_else (some a) o = some a

unfoldable pub price : PriceTable → ProviderKind → Text → Option ModelPrice
price t provider model =
    or_else (lookup (provider, model) t.by_model) (lookup provider t.default_by_provider)

abbrev pub cost_of_price : Option ModelPrice → Usage → Option ℕ
cost_of_price none u = none
cost_of_price (some p) u = some (cost_nano p u)

-- `PriceTable::cost_nano`
unfoldable pub table_cost_nano : PriceTable → ProviderKind → Text → Usage → Option ℕ
table_cost_nano t provider model u = cost_of_price (price t provider model) u

abbrev pub opus : ModelPrice
opus = record {
  input = 15000;
  output = 75000;
  cache_read = 1500;
  cache_write = 18750;
  reasoning = 75000;
}

abbrev pub gpt4o : ModelPrice
gpt4o = record {
  input = 2500;
  output = 10000;
  cache_read = 1250;
  cache_write = 0;
  reasoning = 10000;
}

abbrev pub llama : ModelPrice
llama = record { input = 600; output = 600; cache_read = 0; cache_write = 0; reasoning = 0 }

unfoldable pub illustrative : PriceTable
unfolding with_model with_default lookup insert
illustrative = with_default cerebras llama (
    with_default open_ai gpt4o (
      with_model open_ai (codes "gpt-4o") gpt4o (
        with_default anthropic opus
          (with_model anthropic (codes "claude-opus-4-8") opus empty_table))))

-- The exact price, with no bound on the numbers.
abbrev pub exact_cost : ModelPrice → Usage → ℕ
exact_cost p u =
    u.input * p.input
    + u.output * p.output
    + u.cache_read * p.cache_read
    + u.cache_write * p.cache_write
    + u.reasoning * p.reasoning

-- The cost is the exact sum of the buckets' costs cut off at the greatest `u64`: it never wraps,
-- and it is exact where the sum fits.
pub cost_nano-eq-min : (p : ModelPrice) (u : Usage) → cost_nano p u ≡ min (exact_cost p u) u64_max
unfolding cost_nano
cost_nano-eq-min p u = omega arith

-- A price set for a model is what that model resolves to, and no other model's price changes; a
-- provider's default changes only the models of that provider that have no price of their own.
pub price_with :
    (t : PriceTable) (k l : ProviderKind) (m n : Text) (p : ModelPrice)
    → (price (with_model k m p t) l n
        ≡ (if provider_beq k l && text_beq m n then some p else price t l n))
      × (price (with_default k p t) l n
          ≡ or_else
              (lookup (l, n) t.by_model)
              (if provider_beq k l then some p else lookup l t.default_by_provider))
unfolding price with_model with_default
price_with t k l m n p =
    ground
      (arith, lookup-insert (k, m) (l, n) p t.by_model, lookup-insert k l p t.default_by_provider)

-- The public list price of a provider.
abbrev pub list_price : ProviderKind → ModelPrice
list_price anthropic = opus
list_price open_ai = gpt4o
list_price cerebras = llama

-- The illustrative table prices every model, known or not, at its provider's list price: no call
-- under it is a pricing miss.
pub illustrative_total :
    (k : ProviderKind) (m : Text) (u : Usage)
    → table_cost_nano illustrative k m u ≡ some (cost_nano (list_price k) u)
unfolding illustrative table_cost_nano price
illustrative_total anthropic m u = ground arith
illustrative_total open_ai m u = ground arith
illustrative_total cerebras m u = ground arith
