-- ===== src/Cache/Tests.antt =====
-- kanbrick-discovery/src/cache.rs: a cache over a graph that is a number.
use kanbrick_v.Common.{
  ℕ, Text, codes, [], ◌∷◌, Result, ok, ◌≡◌, ◌≢◌, refl, arith, lookup, text_beq, insert, remove,
  ok_injective, false, ◌↔◌,
}
use kanbrick_v.Core.Error.{Error}
use kanbrick_v.Cache.{
  Codec, new_cache, get_or_compute, get_or_compute_with_ttl, look, keep, scoped_key,
}
use kanbrick_v.Cache.Fresh.{get, change, prune, run, run-transparent}
use kanbrick_v.Core.Clearance.{ClearanceLevel, l3, l5}
use kanbrick_v.Scope.Clearance.{ClearanceScope}
use kanbrick_v.Scope.Project.{clearance_visibility}
use kanbrick_v.Cache.Keys.{scoped_key-eq_iff}
use kanbrick_v.Cache.Race.{Shared, Reach, initial, invalidation_overtaken}

abbrev plain : Codec ℕ ℕ
plain = record { to_value = λ n. ok n; from_value = λ n. ok n }

-- Every key is answered by the graph itself.
abbrev answers : ℕ → Text → Result Error ℕ
answers g key = ok g

abbrev key : Text
key = codes "org()@clearance:L3:cy"

served_at_its_time_to_live :
    (let c = (get_or_compute plain 5 6 key (ok 7) (new_cache 10)).1 in
      get_or_compute plain 16 17 key (ok 8) c).0
    ≡ ok 7
unfolding get_or_compute get_or_compute_with_ttl look keep lookup insert text_beq
served_at_its_time_to_live = refl

computed_after_it :
    (let c = (get_or_compute plain 5 6 key (ok 7) (new_cache 10)).1 in
      get_or_compute plain 17 18 key (ok 8) c).0
    ≡ ok 8
unfolding get_or_compute get_or_compute_with_ttl look keep lookup insert text_beq remove
computed_after_it = refl

run-transparent_example :
    (let (g', c) = run plain answers (get key 10 1 2 ∷ change 4 ∷ prune 3 ∷ []) (3, new_cache 60) in
      (get_or_compute_with_ttl plain 4 5 key 10 (answers g' key) c).0 ≡ answers g' key)
run-transparent_example =
    run-transparent plain answers (get key 10 1 2 ∷ change 4 ∷ prune 3 ∷ []) 3 60 key 10 4 5
      (λ t. (t, refl, refl))

invalidation_overtaken_example :
    (s : Shared ℕ ℕ ℕ) × Reach plain answers (initial plain answers 60 3) s
    × (s.graph ≡ 4)
    × (s.computed ≡ [])
    × ((get_or_compute_with_ttl plain 9 9 key 10 (answers 4 key) s.cache).0 ≢ answers 4 key)
    × ((get_or_compute_with_ttl plain 9 9 key 10 (answers 4 key) s.cache).0 ≡ answers 3 key)
invalidation_overtaken_example =
    invalidation_overtaken plain answers 3 4 key 60 10 1 2 9 9 3 (λ t. (t, refl, refl)) refl
      (λ e. let four : ◌≡◌ {A = ℕ} 4 3 = ok_injective e in omega arith) (omega arith)

abbrev scope_of : ClearanceLevel → Text → ClearanceScope
scope_of level email = record {
  clearance = level;
  self_email = email;
  sees_all = false;
  visible_company_ids = [];
  visible_person_emails = [];
}

scoped_key-eq_iff_example :
    (scoped_key (clearance_visibility (scope_of l3 (codes "cy"))).scope_key (codes "org") []
      ≡ scoped_key (clearance_visibility (scope_of l5 (codes "cy"))).scope_key (codes "org") [])
    ↔ ((l3 ≡ l5) × (codes "cy" ≡ codes "cy"))
scoped_key-eq_iff_example =
    scoped_key-eq_iff (scope_of l3 (codes "cy")) (scope_of l5 (codes "cy")) (codes "org") []
