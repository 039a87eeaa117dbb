-- ===== src/Cache.antt =====
-- kanbrick-discovery/src/cache.rs: the cache of discovery answers. A value is kept as the JSON value
-- of type `J`; instants count up from any origin, and `codec` is serde_json.
pub mod Fresh
pub mod Race
pub mod Keys
mod Tests
use kanbrick_v.Common.{
  ℕ, ◌+◌, ◌-◌, ◌%◌, ◌^◌, Text, codes, List, [], ◌++◌, Bool, ◌&&◌, nat_beq, leb, Option, none, some,
  Dict, lookup, insert, remove, retain_values, text_eq, sat_add, length, if◌then◌else◌, Result, ok,
  err,
}
use kanbrick_v.Core.Error.{Error, internal}

-- `scoped_key`, from the key of the scope
unfoldable pub scoped_key : Text → Text → Text → Text
scoped_key scope_key function args = function ++ (codes "(" ++ (args ++ (codes ")@" ++ scope_key)))

pub record CacheStats : Type 0 where
  pub hits : ℕ
  pub misses : ℕ
  pub entries : ℕ

pub record Entry (J : Type 0) : Type 0 where
  pub value : J
  pub inserted : ℕ
  pub ttl : ℕ
  pub generation : ℕ

-- `DiscoveryCache` with the `Inner` behind its lock
pub record DiscoveryCache (J : Type 0) : Type 0 where
  pub default_ttl : ℕ
  pub generation : ℕ
  pub entries : Dict Text (Entry J)
  pub hits : ℕ
  pub misses : ℕ

-- How a value of type `T` is encoded and decoded.
pub record Codec (T J : Type 0) : Type 0 where
  pub to_value : T → Result Text J
  pub from_value : J → Result Text T

module _ {J : Type 0} where
  abbrev pub is_live : ℕ → ℕ → Entry J → Bool
  is_live generation now e = nat_beq e.generation generation && leb (now - e.inserted) e.ttl

  abbrev pub new_cache : ℕ → DiscoveryCache J
  new_cache default_ttl = record {
    default_ttl = default_ttl;
    generation = 0;
    entries = [];
    hits = 0;
    misses = 0;
  }

  -- `fetch_add` on the counters
  abbrev pub hit : DiscoveryCache J → DiscoveryCache J
  hit c = record c { hits = (c.hits + 1) % 2 ^ 64 }

  abbrev pub missed : DiscoveryCache J → DiscoveryCache J
  missed c = record c { misses = (c.misses + 1) % 2 ^ 64 }

  -- The lookup, on the entry of the key: a value that is served, or the cache without the entry.
  abbrev pub look_at : ℕ → Text → DiscoveryCache J → Option (Entry J) → Option J × DiscoveryCache J
  look_at now key c none = (none, missed c)
  look_at now key c (some e) =
      if is_live c.generation now e
      then (some e.value, hit c)
      else (none, missed (record c { entries = remove key c.entries }))

  unfoldable pub look : ℕ → Text → DiscoveryCache J → Option J × DiscoveryCache J
  look now key c = look_at now key c (lookup key c.entries)

  -- The insertion, under the generation that the cache has by then
  unfoldable pub keep : ℕ → ℕ → Text → J → DiscoveryCache J → DiscoveryCache J
  keep now ttl key value c = record c {
    entries =
        insert key (record { value = value; inserted = now; ttl = ttl; generation = c.generation })
          c.entries;
  }

  unfoldable pub invalidate_all : DiscoveryCache J → DiscoveryCache J
  invalidate_all c = record c { generation = sat_add c.generation 1; entries = [] }

  -- `prune_expired`: how many were removed, and the cache
  unfoldable pub prune_expired : ℕ → DiscoveryCache J → ℕ × DiscoveryCache J
  prune_expired now c =
      let live = retain_values (is_live c.generation now) c.entries in
      (length c.entries - length live, record c { entries = live })

  unfoldable pub stats : DiscoveryCache J → CacheStats
  stats c = record { hits = c.hits; misses = c.misses; entries = length c.entries }

  module _ {T : Type 0} (codec : Codec T J) where
    abbrev pub decoded : Result Text T → Result Error T
    decoded (ok t) = ok t
    decoded (err e) = err (internal (codes "cache decode failed: " ++ e))

    abbrev pub stored :
        ℕ → ℕ → Text → T → DiscoveryCache J → Result Text J → Result Error T × DiscoveryCache J
    stored now ttl key t c (ok value) = (ok t, keep now ttl key value c)
    stored now ttl key t c (err e) = (err (internal (codes "cache encode failed: " ++ e)), c)

    -- What follows a miss, on what was computed.
    abbrev pub compute_and_store :
        ℕ → ℕ → Text → Result Error T → DiscoveryCache J → Result Error T × DiscoveryCache J
    compute_and_store now ttl key (err e) c = (err e, c)
    compute_and_store now ttl key (ok t) c = stored now ttl key t c (codec.to_value t)

    abbrev pub answered :
        ℕ
        → ℕ
        → Text
        → Result Error T
        → Option J × DiscoveryCache J
        → Result Error T × DiscoveryCache J
    answered now ttl key computed (some value, c) = (decoded (codec.from_value value), c)
    answered now ttl key computed (none, c) = compute_and_store now ttl key computed c

    -- `get_or_compute_with_ttl`, looked up at one instant and stored at another
    unfoldable pub get_or_compute_with_ttl :
        ℕ → ℕ → Text → ℕ → Result Error T → DiscoveryCache J → Result Error T × DiscoveryCache J
    unfolding look keep
    get_or_compute_with_ttl before after key ttl computed c =
        answered after ttl key computed (look before key c)

    unfoldable pub get_or_compute :
        ℕ → ℕ → Text → Result Error T → DiscoveryCache J → Result Error T × DiscoveryCache J
    unfolding get_or_compute_with_ttl
    get_or_compute before after key computed c =
        get_or_compute_with_ttl before after key c.default_ttl computed c
