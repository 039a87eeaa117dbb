-- ===== src/Tokens/Spend.antt =====
-- The ledger's totals and namespaces.
use Prim.Native.Nat.{min}
use mathlib.Core.List.{foldl}
use kanbrick_v.Common.{
  ℕ, ◌+◌, ◌≡◌, inl, inr, ◌∙◌, sym, refl, Text, List, [], ◌∷◌, ◌++◌, true, false, none, some,
  lookup-insert, nat_eq, sat_add, u64_max, ok, err, arith, ap, Bool-cases, nat_beq, nat_beq_iff,
  append-nil, if◌then◌else◌,
}
use kanbrick_v.Providers.{ProviderKind}
use kanbrick_v.Providers.Usage.{Usage, no_usage, accumulate}
use kanbrick_v.Tokens.Pricing.{PriceTable, table_cost_nano}
use kanbrick_v.Tokens.Ledger.{
  LedgerEntry, backend, no_price, LedgerStore, InMemoryLedger, entries_of, push_entry, entries,
  total_usage, total_cost_nano, priced_entry, record_usage,
}

entries_of-push :
    (s : LedgerStore) (e : LedgerEntry) (v : ℕ)
    → entries_of (push_entry s e) v ≡ entries_of s v ++ (if nat_beq e.user_id v then e ∷ [] else [])
unfolding entries_of push_entry
entries_of-push s e v = elim (Bool-cases (nat_beq e.user_id v)) [
  | inl same ↦
      rw (lookup-insert e.user_id v (entries_of s e.user_id ++ (e ∷ [])) s, same)
        (ap (λ u. entries_of s u ++ (e ∷ [])) ((nat_beq_iff e.user_id v).0 same))
  | inr other ↦
      rw (lookup-insert e.user_id v (entries_of s e.user_id ++ (e ∷ [])) s, other)
        (sym (append-nil (entries_of s v)))
]

module _ (id now : ℕ) (t : PriceTable) (u : ℕ) (k : ProviderKind) (m : Text) (g : Usage)
    (l : InMemoryLedger) where
  record_usage_ok :
      (c : ℕ)
      → table_cost_nano t k m g ≡ some c
      → l.poisoned ≡ false
      → record_usage id now t u k m g l ≡ (
        ok (priced_entry id now u k m g c),
        record l { inner = push_entry l.inner (priced_entry id now u k m g c) },
      )
  unfolding record_usage
  record_usage_ok c e p = ground arith

entries_lem :
    (l : InMemoryLedger) (v : ℕ) → l.poisoned ≡ false → entries l v ≡ ok (entries_of l.inner v)
unfolding entries
entries_lem l v p = ground arith

-- A priced call appends one entry, with the table's cost, to the entries of its user and leaves
-- every other user's entries alone.
pub record_usage_namespaced :
    (id now : ℕ) (t : PriceTable) (u : ℕ) (k : ProviderKind) (m : Text) (g : Usage)
    (l : InMemoryLedger) (c v : ℕ)
    → table_cost_nano t k m g ≡ some c
    → l.poisoned ≡ false
    → let (r, l') = record_usage id now t u k m g l in
      let entry = priced_entry id now u k m g c in
      (r ≡ ok entry)
      × (entries l' v ≡ ok (entries_of l.inner v ++ (if nat_beq u v then entry ∷ [] else [])))
      × (entries l v ≡ ok (entries_of l.inner v))
record_usage_namespaced id now t u k m g l c v e p =
    let x = priced_entry id now u k m g c in
    let l' : InMemoryLedger = record l { inner = push_entry l.inner x } in
    rw (record_usage_ok id now t u k m g l c e p)
      (refl, entries_lem l' v p ∙ ap ok (entries_of-push l.inner x v), entries_lem l v p)

-- A pricing miss and a poisoned lock are errors that leave the ledger as it was; the miss is found
-- first.
pub record_usage_fails :
    (id now : ℕ) (t : PriceTable) (u : ℕ) (k : ProviderKind) (m : Text) (g : Usage)
    (l : InMemoryLedger)
    → l.poisoned ≡ true
    → record_usage id now t u k m g l
      ≡ (elim (table_cost_nano t k m g) [ none ↦ err (no_price k m) | some _ ↦ err backend ], l)
unfolding record_usage
record_usage_fails id now t u k m g l p = ground arith

abbrev pub costs : List LedgerEntry → ℕ
costs [] = 0
costs (e ∷ es) = e.cost_nano_usd + costs es

foldl-cost :
    (es : List LedgerEntry) (acc : ℕ)
    → foldl (λ a e. sat_add a e.cost_nano_usd) (min acc u64_max) es ≡ min (acc + costs es) u64_max
foldl-cost [] acc = omega arith
foldl-cost (e ∷ es) acc =
    ap (λ a. foldl (λ b x. sat_add b x.cost_nano_usd) a es) (step acc e.cost_nano_usd)
    ∙ foldl-cost es (acc + e.cost_nano_usd)
    ∙ omega arith
  where
    step : (a c : ℕ) → sat_add (min a u64_max) c ≡ min (a + c) u64_max
    step a c = omega arith

-- The total cost of a user is the exact sum of the costs of that user's entries, cut off at the
-- greatest `u64`: the order of the calls does not matter and the total never wraps.
pub total_cost_nano-eq-min :
    (l : InMemoryLedger) (u : ℕ)
    → l.poisoned ≡ false
    → total_cost_nano l u ≡ ok (min (costs (entries_of l.inner u)) u64_max)
unfolding total_cost_nano
total_cost_nano-eq-min l u p = ground (arith, foldl-cost (entries_of l.inner u) 0)

abbrev sum_of : (Usage → ℕ) → List LedgerEntry → ℕ
sum_of bucket [] = 0
sum_of bucket (e ∷ es) = bucket e.usage + sum_of bucket es

-- The usage whose buckets are sums, cut off.
abbrev pub summed : Usage → List LedgerEntry → Usage
summed acc es = record {
  input = min (acc.input + sum_of (λ u. u.input) es) u64_max;
  output = min (acc.output + sum_of (λ u. u.output) es) u64_max;
  cache_read = min (acc.cache_read + sum_of (λ u. u.cache_read) es) u64_max;
  cache_write = min (acc.cache_write + sum_of (λ u. u.cache_write) es) u64_max;
  reasoning = min (acc.reasoning + sum_of (λ u. u.reasoning) es) u64_max;
}

-- One more entry, added with no bound.
abbrev plus : Usage → Usage → Usage
plus a u = record {
  input = a.input + u.input;
  output = a.output + u.output;
  cache_read = a.cache_read + u.cache_read;
  cache_write = a.cache_write + u.cache_write;
  reasoning = a.reasoning + u.reasoning;
}

accumulate-summed : (acc u : Usage) → accumulate (summed acc []) u ≡ summed (plus acc u) []
unfolding accumulate
accumulate-summed acc u = ground arith

summed-cons :
    (acc : Usage) (e : LedgerEntry) (es : List LedgerEntry)
    → summed (plus acc e.usage) es ≡ summed acc (e ∷ es)
summed-cons acc e es = ground arith

foldl-usage :
    (es : List LedgerEntry) (acc : Usage)
    → foldl (λ t e. accumulate t e.usage) (summed acc []) es ≡ summed acc es
foldl-usage [] acc = refl
foldl-usage (e ∷ es) acc =
    ap (λ a. foldl (λ t x. accumulate t x.usage) a es) (accumulate-summed acc e.usage)
    ∙ foldl-usage es (plus acc e.usage)
    ∙ summed-cons acc e es

-- The total usage of a user is, bucket by bucket, the exact sum over that user's entries cut off at
-- the greatest `u64`: no bucket leaks into another.
pub total_usage-eq-summed :
    (l : InMemoryLedger) (u : ℕ)
    → l.poisoned ≡ false
    → total_usage l u ≡ ok (summed no_usage (entries_of l.inner u))
unfolding total_usage
total_usage-eq-summed l u p = ground (arith, foldl-usage (entries_of l.inner u) no_usage)
