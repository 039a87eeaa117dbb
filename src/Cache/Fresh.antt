-- ===== src/Cache/Fresh.antt =====
-- kanbrick-discovery/src/cache.rs: lookups one after the other, between changes of the graph that are
-- each followed by an invalidation, and what happens if they overlap.
use kanbrick_v.Common.{
  ℕ, Text, List, [], ◌∷◌, Option, none, some, Bool-cases, lookup, remove, text_eq, text_beq,
  text_beq_iff, lookup-insert, lookup-remove, lookup-retain_values, Result, ok, err, ok_injective,
  ◌≡◌, refl, sym, ap, ◌∙◌, arith, inl, inr,
}
use kanbrick_v.Core.Error.{Error}
use kanbrick_v.Cache.{
  Entry, DiscoveryCache, Codec, is_live, missed, new_cache, look_at, look, keep, invalidate_all,
  prune_expired, answered, compute_and_store, decoded, get_or_compute_with_ttl,
}

-- What the cache relies on in serde_json: a value is encoded, and decoded to itself.
abbrev pub RoundTrips : {T J : Type 0} → Codec T J → Type 0
RoundTrips {T} {J} codec =
    (t : T) → (j : J) × (codec.to_value t ≡ ok j) × (codec.from_value j ≡ ok t)

-- A lookup of a key, computed on a miss; a change of the graph, and the invalidation after it; and
-- a pruning.
pub data Op (G : Type 0) : Type 0 where
  get : (key : Text) (ttl before after : ℕ) → Op G
  change : G → Op G
  prune : ℕ → Op G

module _ {G T J : Type 0} (codec : Codec T J) (answers : G → Text → Result Error T) where
  abbrev pub apply : Op G → G × DiscoveryCache J → G × DiscoveryCache J
  apply (get key ttl before after) (g, c) =
      (g, (get_or_compute_with_ttl codec before after key ttl (answers g key) c).1)
  apply (change g') (g, c) = (g', invalidate_all c)
  apply (prune now) (g, c) = (g, (prune_expired now c).1)

  abbrev pub run : List (Op G) → G × DiscoveryCache J → G × DiscoveryCache J
  run [] s = s
  run (op ∷ ops) s = run ops (apply op s)

  -- Every entry is what the graph answers now.
  abbrev Fresh : G → DiscoveryCache J → Type 0
  Fresh g c =
      (key : Text) (e : Entry J)
      → lookup key c.entries ≡ some e
      → (t : T) × (answers g key ≡ ok t) × (codec.to_value t ≡ ok e.value)

  abbrev kept_entry : DiscoveryCache J → ℕ → ℕ → J → Entry J
  kept_entry c now ttl j = record {
    value = j;
    inserted = now;
    ttl = ttl;
    generation = c.generation;
  }

  keep-Fresh :
      (g : G) (c : DiscoveryCache J) (now ttl : ℕ) (key : Text) (t : T) (j : J)
      → answers g key ≡ ok t
      → codec.to_value t ≡ ok j
      → Fresh g c
      → Fresh g (keep now ttl key j c)
  unfolding keep
  keep-Fresh g c now ttl key t j a v f k e h = elim (Bool-cases (text_beq key k)) [
    | inl same ↦ (
      t,
      ground (arith, text_beq_iff key k),
      ground (arith, lookup-insert key k (kept_entry c now ttl j) c.entries),
    )
    | inr other ↦ f k e (ground (arith, lookup-insert key k (kept_entry c now ttl j) c.entries))
  ]

  prune-Fresh :
      (g : G) (c : DiscoveryCache J) (now : ℕ) → Fresh g c → Fresh g (prune_expired now c).1
  unfolding prune_expired
  prune-Fresh g c now f k e h =
      f k e (ground (arith, lookup-retain_values (is_live c.generation now) k c.entries))

  -- What a lookup gives and leaves, when the answer is as it should be.
  abbrev Right : G → Text → Result Error T × DiscoveryCache J → Type 0
  Right g key p = (p.0 ≡ answers g key) × Fresh g p.1

  stored-Right :
      (g : G) (c : DiscoveryCache J) (now ttl : ℕ) (key : Text) (r : Result Error T)
      → RoundTrips codec
      → answers g key ≡ r
      → Fresh g c
      → Right g key (compute_and_store codec now ttl key r c)
  stored-Right g c now ttl key (err e) trips a f = (sym a, f)
  stored-Right g c now ttl key (ok t) trips a f =
      let (j, v, _) = trips t in rw v ((sym a, keep-Fresh g c now ttl key t j a v f))

  found-Right :
      (g : G) (c : DiscoveryCache J) (key : Text) (e : Entry J)
      → RoundTrips codec
      → lookup key c.entries ≡ some e
      → Fresh g c
      → decoded codec (codec.from_value e.value) ≡ answers g key
  found-Right g c key e trips h f =
      let (t, a, v) = f key e h in
      let (j, w, back) = trips t in
      let same = ok_injective (sym w ∙ v) in
      ap (λ x. decoded codec (codec.from_value x)) (sym same) ∙ ap (decoded codec) back ∙ sym a

  looked-Right :
      (g : G) (c : DiscoveryCache J) (key : Text) (ttl before after : ℕ) (o : Option (Entry J))
      → RoundTrips codec
      → lookup key c.entries ≡ o
      → Fresh g c
      → Right g key (answered codec after ttl key (answers g key) (look_at before key c o))
  looked-Right g c key ttl before after none trips h f =
      stored-Right g (missed c) after ttl key (answers g key) trips refl f
  looked-Right g c key ttl before after (some e) trips h f =
      elim (Bool-cases (is_live c.generation before e)) [
        | inl live ↦ rw live ((found-Right g c key e trips h f, f))
        | inr dead ↦ rw dead (
            stored-Right g (missed (record c { entries = remove key c.entries })) after ttl key
              (answers g key) trips refl
              (λ k e' h'. f k e' (ground (arith, lookup-remove key k c.entries))))
      ]

  get-Right :
      (g : G) (c : DiscoveryCache J) (key : Text) (ttl before after : ℕ)
      → RoundTrips codec
      → Fresh g c
      → Right g key (get_or_compute_with_ttl codec before after key ttl (answers g key) c)
  unfolding get_or_compute_with_ttl look
  get-Right g c key ttl before after trips f =
      looked-Right g c key ttl before after (lookup key c.entries) trips refl f

  apply-Fresh :
      (op : Op G) (s : G × DiscoveryCache J)
      → RoundTrips codec
      → Fresh s.0 s.1
      → Fresh (apply op s).0 (apply op s).1
  unfolding invalidate_all lookup
  apply-Fresh (get key ttl before after) (g, c) trips f =
      (get-Right g c key ttl before after trips f).1
  apply-Fresh (change g') (g, c) trips f = λ k e h. cc
  apply-Fresh (prune now) (g, c) trips f = prune-Fresh g c now f

  run-Fresh :
      (ops : List (Op G)) (s : G × DiscoveryCache J)
      → RoundTrips codec
      → Fresh s.0 s.1
      → Fresh (run ops s).0 (run ops s).1
  run-Fresh [] s trips f = f
  run-Fresh (op ∷ ops) s trips f = run-Fresh ops (apply op s) trips (apply-Fresh op s trips f)

  new-Fresh : (g : G) (ttl : ℕ) → Fresh g (new_cache ttl)
  unfolding lookup
  new-Fresh g ttl k e h = cc

  -- The cache cannot be seen from outside: after any lookups, prunings and changes of the graph that
  -- are each followed by an invalidation, one after the other, a lookup gives exactly what its
  -- computation gives on the graph as it is then, an error included, whatever the times to live and
  -- the clock.
  pub run-transparent :
      (ops : List (Op G)) (g : G) (default_ttl : ℕ) (key : Text) (ttl before after : ℕ)
      → RoundTrips codec
      → (let (g', c) = run ops (g, new_cache default_ttl) in
          (get_or_compute_with_ttl codec before after key ttl (answers g' key) c).0
          ≡ answers g' key)
  run-transparent ops g default_ttl key ttl before after trips =
      (get-Right (run ops (g, new_cache default_ttl)).0 (run ops (g, new_cache default_ttl)).1 key
        ttl before after trips
        (run-Fresh ops (g, new_cache default_ttl) trips (new-Fresh g default_ttl))).0
