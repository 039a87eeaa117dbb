-- ===== src/Admission/Limits.antt =====
-- kanbrick-api/src/admission.rs: the permits of a guest and the calls that hold them add up.
use kanbrick_v.Common.{
  ℕ, ◌+◌, Text, text_eq, text_beq, text_beq_iff, ==_refl, List, [], ◌∷◌, ◌++◌, ◌≡◌, refl, sym,
  subst, Option, lookup, lookup-insert, pos, if◌then◌else◌, Bool, false, Bool-cases, arith, inl,
  inr,
}
use kanbrick_v.Admission.{
  AdmissionConfig, GuestSlot, GuestAdmission, admission, slot_of, put_slot, or_new, new_slot,
  seeded, larger,
}
use kanbrick_v.Admission.Calls.{
  Stage, Call, Move, reserves, finds_full, is_refused, queues, acquires, begins, cancels,
  hands_back, unqueues, leaves, finishes, ends, Desk, calls_of, Step, moves,
}
use kanbrick_v.Admission.Counts.{
  has_queue, has_permit, is_queued, one_if, count, flag, count-around,
}

-- The slot of a guest whose calls hold so many permits of the queue and of the concurrency, and of
-- which so many are counted as queued.
abbrev pub Balanced : AdmissionConfig → GuestSlot → ℕ → ℕ → ℕ → Type 0
Balanced config slot in_queue permits waits =
    (slot.capacity ≡ larger config.guest_concurrency 1)
    × (slot.concurrency + permits ≡ slot.capacity)
    × (slot.queue + in_queue ≡ larger config.queue_limit slot.capacity)
    × (slot.queued ≡ pos waits)

module _ (config : AdmissionConfig) where
  -- What a call holds, besides the others of its guest.
  abbrev With : GuestSlot → Option Stage → ℕ → ℕ → ℕ → Type 0
  With slot stage q p w =
      Balanced config slot (one_if (flag has_queue stage) + q) (one_if (flag has_permit stage) + p)
        (one_if (flag is_queued stage) + w)

  Move-With :
      {from to : Option Stage} {s t : GuestSlot} (q p w : ℕ)
      → Move from to s t
      → With s from q p w
      → With t to q p w
  Move-With q p w (reserves h) b = ground arith
  Move-With q p w (finds_full h) b = b
  Move-With q p w is_refused b = b
  Move-With q p w queues b = ground arith
  Move-With q p w (acquires h) b = ground arith
  Move-With q p w begins b = ground arith
  Move-With q p w cancels b = b
  Move-With q p w hands_back b = ground arith
  Move-With q p w unqueues b = ground arith
  Move-With q p w leaves b = ground arith
  Move-With q p w finishes b = ground arith
  Move-With q p w ends b = ground arith

  abbrev Counted : GuestSlot → Text → List Call → Type 0
  Counted slot name calls =
      Balanced config slot (count has_queue name calls) (count has_permit name calls)
        (count is_queued name calls)

  -- The counts of every guest.
  abbrev pub Inv : Desk → Type 0
  Inv d = (name : Text) → Counted (slot_of name d.control) name d.calls

  slot_of-put_slot :
      (name other : Text) (slot : GuestSlot) (a : GuestAdmission)
      → slot_of other (put_slot name slot a)
        ≡ (if text_beq name other then slot else slot_of other a)
  unfolding slot_of put_slot
  slot_of-put_slot name other slot a =
      ground (arith, lookup-insert name other slot a.slots, text_beq_iff name other)

  new-Balanced : Balanced config (new_slot config) 0 0 0
  new-Balanced = ground arith

  seeded-new :
      (guests : List Text) (name : Text)
      → or_new config (lookup name (seeded config guests)) ≡ new_slot config
  unfolding seeded lookup
  seeded-new [] name = refl
  seeded-new (g ∷ guests) name = ground (
    arith,
    lookup-insert g name (new_slot config) (seeded config guests),
    text_beq_iff g name,
    seeded-new guests name,
  )

  pub Inv-init :
      (guests : List Text) → Inv (record { control = admission guests config; calls = [] })
  unfolding slot_of
  Inv-init guests name = rw (seeded-new guests name) new-Balanced

  recount :
      (slot : GuestSlot) {q p w q' p' w' : ℕ}
      → q ≡ q'
      → p ≡ p'
      → w ≡ w'
      → Balanced config slot q p w
      → Balanced config slot q' p' w'
  recount slot e f h b = rw⁻¹ (e, f, h) b

  -- The counts of the guest of a call, with the call set apart.
  around_same :
      (f : Stage → Bool) (name : Text) (stage : Option Stage) (before after : List Call)
      → count f name (before ++ (calls_of name stage ++ after))
        ≡ one_if (flag f stage) + count f name (before ++ after)
  around_same f name stage before after =
      rw (count-around f name name stage before after, ==_refl name) refl

  around_other :
      (f : Stage → Bool) (name other : Text) (from to : Option Stage) (before after : List Call)
      → text_beq name other ≡ false
      → count f other (before ++ (calls_of name from ++ after))
        ≡ count f other (before ++ (calls_of name to ++ after))
  around_other f name other from to before after apart =
      rw
        (
          count-around f other name from before after,
          count-around f other name to before after,
          apart,
        )
        refl

  pub Step-Inv : {d e : Desk} → Step d e → Inv d → Inv e
  Step-Inv {d} (moves before name from to after {slot} e m) inv other =
      elim (Bool-cases (text_beq name other)) [
        | inl same ↦
            subst
              (λ o.
                Counted (slot_of o (put_slot name slot d.control)) o
                  (before ++ (calls_of name to ++ after)))
              ((text_beq_iff name other).0 same)
              (rw (slot_of-put_slot name name slot d.control, ==_refl name) own)
        | inr apart ↦
            rw (slot_of-put_slot name other slot d.control, apart)
              (recount (slot_of other d.control)
                (around_other has_queue name other from to before after apart)
                (around_other has_permit name other from to before after apart)
                (around_other is_queued name other from to before after apart)
                (subst (Counted (slot_of other d.control) other) e (inv other)))
      ]
    where
      held :
          With
            (slot_of name d.control)
            from
            (count has_queue name (before ++ after))
            (count has_permit name (before ++ after))
            (count is_queued name (before ++ after))
      held =
          recount (slot_of name d.control) (around_same has_queue name from before after)
            (around_same has_permit name from before after)
            (around_same is_queued name from before after)
            (subst (Counted (slot_of name d.control) name) e (inv name))

      own : Counted slot name (before ++ (calls_of name to ++ after))
      own =
          recount slot (sym (around_same has_queue name to before after))
            (sym (around_same has_permit name to before after))
            (sym (around_same is_queued name to before after)) (Move-With _ _ _ m held)
