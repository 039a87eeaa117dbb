-- ===== src/Cache/Race.antt =====
-- kanbrick-discovery/src/cache.rs: lookups that overlap. A computation runs without the lock, between
-- the lookup and the insertion.
use kanbrick_v.Common.{
  ℕ, ◌-◌, ◌≤◌, Text, List, [], ◌∷◌, true, Option, none, lookup, text_eq, text_beq_iff,
  lookup-insert, Result, ok, ◌≡◌, ◌≢◌, refl, sym, ap, ◌∙◌, arith,
}
use kanbrick_v.Core.Error.{Error}
use kanbrick_v.Cache.{
  DiscoveryCache, Codec, is_live, new_cache, look, keep, invalidate_all, decoded,
  get_or_compute_with_ttl,
}
use kanbrick_v.Cache.Fresh.{RoundTrips}

-- The graph, the cache, and what threads have computed and not stored yet.
pub record Shared (G T J : Type 0) : Type 0 where
  pub graph : G
  pub cache : DiscoveryCache J
  pub computed : List (Text × ℕ × T)

live :
    {J : Type 0} (generation t1 ttl before : ℕ) (j : J)
    → before - t1 ≤ ttl
    → is_live generation before
        (record { value = j; inserted = t1; ttl = ttl; generation = generation })
      ≡ true
live generation t1 ttl before j within = ground arith

module _ {G T J : Type 0} (codec : Codec T J) (answers : G → Text → Result Error T) where
  -- A change of the graph is taken with its invalidation as one step.
  pub data Step (s : Shared G T J) : Shared G T J → Type 0 where
    miss :
        (key : Text) (ttl now : ℕ) (t : T)
        → (look now key s.cache).0 ≡ none
        → answers s.graph key ≡ ok t
        → Step s
            (record s { cache = (look now key s.cache).1; computed = (key, ttl, t) ∷ s.computed })
    store :
        (key : Text) (ttl now : ℕ) (t : T) (j : J) (rest : List (Text × ℕ × T))
        → s.computed ≡ (key, ttl, t) ∷ rest
        → codec.to_value t ≡ ok j
        → Step s (record s { cache = keep now ttl key j s.cache; computed = rest })
    change : (g : G) → Step s (record s { graph = g; cache = invalidate_all s.cache })

  pub data Reach (s : Shared G T J) : Shared G T J → Type 0 where
    here : Reach s s
    next : {t u : Shared G T J} → Reach s t → Step t u → Reach s u

  abbrev pub initial : ℕ → G → Shared G T J
  initial default_ttl g = record { graph = g; cache = new_cache default_ttl; computed = [] }

  abbrev asked : ℕ → G → Text → ℕ → Option J × DiscoveryCache J
  asked default_ttl g key t0 = look t0 key (new_cache default_ttl)

  first_miss :
      (default_ttl : ℕ) (g : G) (key : Text) (t0 : ℕ) → (asked default_ttl g key t0).0 ≡ none
  unfolding look lookup
  first_miss default_ttl g key t0 = refl

  -- A value that was stored is served within its time to live.
  served :
      (c : DiscoveryCache J) (key : Text) (ttl t1 before after : ℕ) (r : Result Error T) (t : T)
      (j : J)
      → codec.from_value j ≡ ok t
      → before - t1 ≤ ttl
      → (get_or_compute_with_ttl codec before after key ttl r (keep t1 ttl key j c)).0 ≡ ok t
  unfolding get_or_compute_with_ttl look keep
  served c key ttl t1 before after r t j back within =
      rw
        (
          lookup-insert key key
              (record { value = j; inserted = t1; ttl = ttl; generation = c.generation }) c.entries,
          (text_beq_iff key key).1 refl,
          live c.generation t1 ttl before j within,
        )
        (ap (decoded codec) back)

  -- A value that is computed before a change of the graph and stored after the invalidation is
  -- served: for any two graphs that answer a key differently, there is a run from the first to the
  -- second, after which the cache has been invalidated, no computation is open, and a lookup within
  -- the time to live gives the answer of the first and not that of the second.
  pub invalidation_overtaken :
      (g h : G) (key : Text) (default_ttl ttl t0 t1 before after : ℕ) (t : T)
      → RoundTrips codec
      → answers g key ≡ ok t
      → answers h key ≢ ok t
      → before - t1 ≤ ttl
      → (s : Shared G T J) × Reach (initial default_ttl g) s
        × (s.graph ≡ h)
        × (s.computed ≡ [])
        × ((get_or_compute_with_ttl codec before after key ttl (answers h key) s.cache).0
            ≢ answers h key)
        × ((get_or_compute_with_ttl codec before after key ttl (answers h key) s.cache).0
            ≡ answers g key)
  invalidation_overtaken g h key default_ttl ttl t0 t1 before after t trips a b within =
      let (j, v, back) = trips t in
      let got =
        served (invalidate_all (asked default_ttl g key t0).1) key ttl t1 before after
          (answers h key) t j back within in
      (
        record {
          graph = h;
          cache = keep t1 ttl key j (invalidate_all (asked default_ttl g key t0).1);
          computed = [];
        },
        next (next (next here (miss key ttl t0 t (first_miss default_ttl g key t0) a)) (change h))
            (store key ttl t1 t j [] refl v),
        refl,
        refl,
        λ e. b (sym e ∙ got),
        got ∙ sym a,
      )
