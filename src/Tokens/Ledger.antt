-- ===== src/Tokens/Ledger.antt =====
-- kanbrick-tokens/src/ledger.rs: the in-memory ledger of priced calls, one list for each user.
use kanbrick_v.Common.{
  ℕ, Text, List, [], ◌∷◌, ◌++◌, Bool, false, none, some, Dict, lookup, insert, nat_eq, sat_add,
  Result, ok, err, ◌>>=◌, ◌>>◌, raise_if,
}
use mathlib.Core.List.{foldl}
use mathlib.Core.Option.{get_or}
use kanbrick_v.Providers.{ProviderKind}
use kanbrick_v.Providers.Usage.{Usage, no_usage, accumulate}
use kanbrick_v.Tokens.Pricing.{PriceTable, table_cost_nano}

-- Identifiers and Unix seconds are numbers.
pub record LedgerEntry : Type 0 where
  pub id : ℕ
  pub user_id : ℕ
  pub provider : ProviderKind
  pub model : Text
  pub usage : Usage
  pub cost_nano_usd : ℕ
  pub at : ℕ

pub data LedgerError : Type 0 where
  backend : LedgerError
  no_price : ProviderKind → Text → LedgerError

abbrev pub LedgerStore : Type 0
LedgerStore = Dict ℕ (List LedgerEntry)

-- `poisoned` holds once a thread has panicked with the lock in hand.
pub record InMemoryLedger : Type 0 where
  pub inner : LedgerStore
  pub poisoned : Bool

abbrev pub new_ledger : InMemoryLedger
new_ledger = record { inner = []; poisoned = false }

unfoldable pub lock : InMemoryLedger → Result LedgerError LedgerStore
lock l = do raise_if l.poisoned backend; ok l.inner

-- `get(&user_id)`, with the empty list for a user who is missing
unfoldable pub entries_of : LedgerStore → ℕ → List LedgerEntry
entries_of s user = get_or (lookup user s) []

-- `entry(user_id).or_default().push(entry)`
unfoldable pub push_entry : LedgerStore → LedgerEntry → LedgerStore
unfolding entries_of
push_entry s e = insert e.user_id (entries_of s e.user_id ++ (e ∷ [])) s

-- `TokenLedger::record`
unfoldable pub record_entry :
    LedgerEntry → InMemoryLedger → Result LedgerError (Unit {0}) × InMemoryLedger
unfolding lock
record_entry e l = elim (lock l) [
  | ok s ↦ (ok tt, record l { inner = push_entry s e })
  | err x ↦ (err x, l)
]

unfoldable pub entries : InMemoryLedger → ℕ → Result LedgerError (List LedgerEntry)
unfolding lock
entries l user = do s ← lock l; ok (entries_of s user)

unfoldable pub total_usage : InMemoryLedger → ℕ → Result LedgerError Usage
unfolding lock
total_usage l user = do
  s ← lock l
  ok (foldl (λ total e. accumulate total e.usage) no_usage (entries_of s user))

unfoldable pub total_cost_nano : InMemoryLedger → ℕ → Result LedgerError ℕ
unfolding lock
total_cost_nano l user = do
  s ← lock l
  ok (foldl (λ acc e. sat_add acc e.cost_nano_usd) 0 (entries_of s user))

abbrev pub priced_entry : ℕ → ℕ → ℕ → ProviderKind → Text → Usage → ℕ → LedgerEntry
priced_entry id now user provider model usage cost = record {
  id = id;
  user_id = user;
  provider = provider;
  model = model;
  usage = usage;
  cost_nano_usd = cost;
  at = now;
}

abbrev pub recorded :
    LedgerEntry
    → Result LedgerError (Unit {0}) × InMemoryLedger
    → Result LedgerError LedgerEntry × InMemoryLedger
recorded e (ok _, l) = (ok e, l)
recorded e (err x, l) = (err x, l)

-- `TokenLedger::record_usage`; the new id and the clock's reading are the first two arguments.
unfoldable pub record_usage :
    ℕ
    → ℕ
    → PriceTable
    → ℕ
    → ProviderKind
    → Text
    → Usage
    → InMemoryLedger
    → Result LedgerError LedgerEntry × InMemoryLedger
unfolding record_entry
record_usage id now pricing user provider model usage l =
    elim (table_cost_nano pricing provider model usage) [
      | none ↦ (err (no_price provider model), l)
      | some cost ↦
          let e = priced_entry id now user provider model usage cost in
          recorded e (record_entry e l)
    ]
