-- ===== src/LoopRuns/Bounded.antt =====
-- The registry of runs keeps its bound and drops the oldest run only.
use kanbrick_v.Common.{
  ◌≤◌, ◌<◌, ◌≡◌, refl, arith, Text, List, [], ◌∷◌, ◌++◌, Bool, true, false, not, ◌∙◌, subst, sym,
  ap, ◌&&◌, Option, none, some, Dict, lookup, insert, remove, lookup-insert, lookup-remove,
  contains, contains-append, text_eq, text_beq, text_beq_iff, ltb, leb, length, length-append,
  Bool-cases, inl, inr, if◌then◌else◌,
}
use kanbrick_v.LoopRuns.{
  RunState, LoopRunRegistry, max_retained_runs, evict, queued, insert_run, snapshot,
}

abbrev is_known : Option RunState → Bool
is_known none = false
is_known (some _) = true

abbrev AllDiffer : List Text → Type 0
AllDiffer [] = Unit
AllDiffer (x ∷ xs) = (contains xs x ≡ false) × AllDiffer xs

-- The queue has the ids of the runs in the map, each once, and no more of them than are retained.
pub record IsRegistry (reg : LoopRunRegistry) : Type 0 where
  pub bounded : length reg.order ≤ max_retained_runs
  pub known : (id : Text) → is_known (lookup id reg.runs) ≡ contains reg.order id
  pub differ : AllDiffer reg.order

-- The queue is longer than the bound by one at most.
evict_fits :
    (order : List Text) (runs : Dict Text RunState)
    → length order ≤ max_retained_runs
    → evict order runs ≡ record { runs = runs; order = order }
unfolding evict
evict_fits [] runs h = refl
evict_fits (x ∷ order) runs h = ground arith

evict_one :
    (oldest : Text) (order : List Text) (runs : Dict Text RunState)
    → length order ≡ max_retained_runs
    → evict (oldest ∷ order) runs ≡ record { runs = remove oldest runs; order = order }
unfolding evict
evict_one oldest order runs h = ground (arith, evict_fits order (remove oldest runs))

AllDiffer-snoc :
    (xs : List Text) (x : Text) → AllDiffer xs → contains xs x ≡ false → AllDiffer (xs ++ (x ∷ []))
unfolding contains
AllDiffer-snoc [] x d h = (refl, tt)
AllDiffer-snoc (y ∷ xs) x d h = (
  ground (arith, contains-append xs (x ∷ []) y, text_beq_iff x y, text_beq_iff y x),
  AllDiffer-snoc xs x d.1 (ground arith),
)

-- The oldest run goes when a new one comes and the registry is full.
abbrev pub is_head : Text → List Text → Bool
is_head k [] = false
is_head k (x ∷ xs) = text_beq x k

abbrev pub is_dropped : LoopRunRegistry → Text → Text → Bool
is_dropped reg new k =
    not (contains reg.order new) && leb max_retained_runs (length reg.order) && is_head k reg.order

-- A registry that results from an insertion of a run, and what it answers.
abbrev Inserted : LoopRunRegistry → RunState → LoopRunRegistry → Type 0
Inserted reg run after =
    IsRegistry after
    × ((k : Text)
        → snapshot k after ≡ (
            if text_beq run.run_id k
            then some run
            else if is_dropped reg run.run_id k
            then none
            else snapshot k reg))

module _ (reg : LoopRunRegistry) (run : RunState) (r : IsRegistry reg) where
  replaced :
      contains reg.order run.run_id ≡ true
      → Inserted reg run (record { runs = insert run.run_id run reg.runs; order = reg.order })
  unfolding snapshot
  replaced c = (
    record {
      bounded = r.bounded;
      known = λ k.
          ground
            (arith, r.known k, lookup-insert run.run_id k run reg.runs, text_beq_iff run.run_id k);
      differ = r.differ;
    },
    λ k. ground (arith, lookup-insert run.run_id k run reg.runs),
  )

  added :
      contains reg.order run.run_id ≡ false
      → length reg.order < max_retained_runs
      → Inserted reg run
          (record { runs = insert run.run_id run reg.runs; order = reg.order ++ (run.run_id ∷ []) })
  unfolding snapshot contains
  added c l = (
    record {
      bounded = omega (arith, length-append reg.order (run.run_id ∷ []));
      known = λ k. ground (
        arith,
        r.known k,
        lookup-insert run.run_id k run reg.runs,
        contains-append reg.order (run.run_id ∷ []) k,
      );
      differ = AllDiffer-snoc reg.order run.run_id r.differ c;
    },
    λ k. ground (arith, lookup-insert run.run_id k run reg.runs),
  )

-- The oldest run makes room.
rotated :
    (reg : LoopRunRegistry) (run : RunState) (oldest : Text) (order : List Text)
    → IsRegistry (record reg { order = oldest ∷ order })
    → contains (oldest ∷ order) run.run_id ≡ false
    → length (oldest ∷ order) ≡ max_retained_runs
    → Inserted
        (record reg { order = oldest ∷ order })
        run
        (record {
          runs = remove oldest (insert run.run_id run reg.runs);
          order = order ++ (run.run_id ∷ []);
        })
unfolding snapshot contains
rotated reg run oldest order r c l = (
  record {
    bounded = omega (arith, length-append order (run.run_id ∷ []));
    known = λ k. ground (
      arith,
      r.known k,
      r.differ.0,
      lookup-remove oldest k (insert run.run_id run reg.runs),
      lookup-insert run.run_id k run reg.runs,
      contains-append order (run.run_id ∷ []) k,
      text_beq_iff oldest k,
      text_beq_iff run.run_id k,
      text_beq_iff oldest run.run_id,
    );
    differ = AllDiffer-snoc order run.run_id r.differ.1 (ground arith);
  },
  λ k. ground (
    arith,
    lookup-remove oldest k (insert run.run_id run reg.runs),
    lookup-insert run.run_id k run reg.runs,
    text_beq_iff oldest k,
    text_beq_iff run.run_id k,
    text_beq_iff oldest run.run_id,
  ),
)

queued_old :
    (o : Option RunState) (id : Text) (order : List Text)
    → is_known o ≡ true
    → queued o id order ≡ order
queued_old none id order h = cc
queued_old (some _) id order h = refl

queued_new :
    (o : Option RunState) (id : Text) (order : List Text)
    → is_known o ≡ false
    → queued o id order ≡ order ++ (id ∷ [])
queued_new none id order h = refl
queued_new (some _) id order h = cc

module _ (runs : Dict Text RunState) (run : RunState) where
  abbrev with_queue : List Text → LoopRunRegistry
  with_queue order = record { runs = runs; order = order }

  module _ (order : List Text) (r : IsRegistry (with_queue order)) where
    insert_run-old :
        contains order run.run_id ≡ true
        → insert_run run (with_queue order)
          ≡ record { runs = insert run.run_id run runs; order = order }
    unfolding insert_run
    insert_run-old c =
        ap (λ q. evict q (insert run.run_id run runs))
          (queued_old (lookup run.run_id runs) run.run_id order (r.known run.run_id ∙ c))
        ∙ evict_fits order (insert run.run_id run runs) r.bounded

    insert_run-new :
        contains order run.run_id ≡ false
        → insert_run run (with_queue order)
          ≡ evict (order ++ (run.run_id ∷ [])) (insert run.run_id run runs)
    unfolding insert_run
    insert_run-new c =
        ap (λ q. evict q (insert run.run_id run runs))
          (queued_new (lookup run.run_id runs) run.run_id order (r.known run.run_id ∙ c))

  insert_run-Inserted_full :
      (order : List Text)
      → IsRegistry (with_queue order)
      → contains order run.run_id ≡ false
      → length order ≡ max_retained_runs
      → Inserted (with_queue order) run (insert_run run (with_queue order))
  insert_run-Inserted_full [] r c l = absurd (omega arith)
  insert_run-Inserted_full (oldest ∷ order) r c l =
      subst (Inserted (with_queue (oldest ∷ order)) run)
        (sym (
          insert_run-new (oldest ∷ order) r c
          ∙ evict_one oldest (order ++ (run.run_id ∷ [])) (insert run.run_id run runs)
              (omega (arith, length-append order (run.run_id ∷ [])))))
        (rotated (with_queue []) run oldest order r c l)

-- Recording a run keeps the registry within its bound, with the ids in its queue exactly those of
-- its runs, each once. The run is there afterwards; of the others only one may go, the oldest, and
-- only when the run is new and the registry was full.
pub insert_run-Inserted :
    (reg : LoopRunRegistry) (run : RunState) (k : Text)
    → IsRegistry reg
    → IsRegistry (insert_run run reg)
      × (snapshot k (insert_run run reg) ≡ (
          if text_beq run.run_id k
          then some run
          else if is_dropped reg run.run_id k
          then none
          else snapshot k reg))
insert_run-Inserted reg run k r =
    let put : Inserted reg run (insert_run run reg) =
      elim (Bool-cases (contains reg.order run.run_id)) [
        | inl c ↦
            subst (Inserted reg run) (sym (insert_run-old reg.runs run reg.order r c))
              (replaced reg run r c)
        | inr c ↦ elim (Bool-cases (ltb (length reg.order) max_retained_runs)) [
          | inl l ↦
              subst (Inserted reg run)
                (sym (
                  insert_run-new reg.runs run reg.order r c
                  ∙ evict_fits (reg.order ++ (run.run_id ∷ [])) (insert run.run_id run reg.runs)
                      (ground (arith, length-append reg.order (run.run_id ∷ [])))))
                (added reg run r c (ground arith))
          | inr l ↦ insert_run-Inserted_full reg.runs run reg.order r c (ground (arith, r.bounded))
        ]
      ] in
    (put.0, put.1 k)
