-- ===== src/Mesh/EventBus/Log.antt =====
-- kanbrick-mesh/src/event.rs: what the log keeps, and who is notified.
use kanbrick_v.Common.{
  ℕ, ◌+◌, ◌-◌, ◌≤◌, zero, suc, ◌≡◌, refl, sym, ap, ◌∙◌, subst, arith, List, [], ◌∷◌, ◌++◌, length,
  length-append, append_assoc, append-nil, some,
}
use kanbrick_v.Mesh.Abi.{Event}
use kanbrick_v.Mesh.EventBus.{EventBus, drop, bounded, emit, emit_all}

length-drop : (n : ℕ) (xs : List Event) → length (drop n xs) ≡ length xs - n
length-drop zero xs = omega arith
length-drop (suc n) [] = omega arith
length-drop (suc n) (x ∷ xs) = omega (arith, length-drop n xs)

drop-append : (n : ℕ) (xs ys : List Event) → n ≤ length xs → drop n (xs ++ ys) ≡ drop n xs ++ ys
drop-append zero xs ys h = refl
drop-append (suc n) [] ys h = absurd (omega arith)
drop-append (suc n) (x ∷ xs) ys h = drop-append n xs ys (omega arith)

drop-nil : (n : ℕ) → drop n [] ≡ []
drop-nil zero = refl
drop-nil (suc n) = refl

drop-drop : (m n : ℕ) (xs : List Event) → drop m (drop n xs) ≡ drop (n + m) xs
drop-drop m zero xs = ap (λ k. drop k xs) (omega arith)
drop-drop m (suc n) [] = drop-nil m ∙ sym (drop-nil (suc n + m))
drop-drop m (suc n) (x ∷ xs) =
    drop-drop m n xs ∙ ap (λ k. drop k (x ∷ xs)) {x = suc (n + m)} {y = suc n + m} (omega arith)

-- The most recent events, as many as the capacity allows
abbrev pub recent : ℕ → List Event → List Event
recent capacity xs = drop (length xs - capacity) xs

bounded_recent : (capacity : ℕ) (xs : List Event) → bounded (some capacity) xs ≡ recent capacity xs
bounded_recent capacity xs = ground arith

-- Evicting as each event comes keeps what evicting at the end would keep.
recent-append :
    (capacity : ℕ) (xs ys : List Event)
    → recent capacity (recent capacity xs ++ ys) ≡ recent capacity (xs ++ ys)
recent-append capacity xs ys =
    ap (recent capacity) (sym joined)
    ∙ drop-drop (length (drop (length xs - capacity) (xs ++ ys)) - capacity) (length xs - capacity)
        (xs ++ ys)
    ∙ ap (λ k. drop k (xs ++ ys)) same
  where
    joined : drop (length xs - capacity) (xs ++ ys) ≡ drop (length xs - capacity) xs ++ ys
    joined = drop-append (length xs - capacity) xs ys (omega arith)

    same :
        length xs - capacity + (length (drop (length xs - capacity) (xs ++ ys)) - capacity)
        ≡ length (xs ++ ys) - capacity
    same = omega (arith, length-drop (length xs - capacity) (xs ++ ys), length-append xs ys)

recent-within : (capacity : ℕ) (xs : List Event) → length xs ≤ capacity → recent capacity xs ≡ xs
recent-within capacity xs h = ap (λ k. drop k xs) {x = length xs - capacity} {y = 0} (omega arith)

length-recent : (capacity : ℕ) (xs : List Event) → length (recent capacity xs) ≤ capacity
length-recent capacity xs = omega (arith, length-drop (length xs - capacity) xs)

module _ {H : Type 0} where
  emit-log :
      (capacity : ℕ) (x : Event) (bus : EventBus H)
      → bus.capacity ≡ some capacity
      → (emit x bus).1.log ≡ recent capacity (bus.log ++ x ∷ [])
  unfolding emit
  emit-log capacity x bus e =
      ap (λ c. bounded c (bus.log ++ x ∷ [])) e ∙ bounded_recent capacity (bus.log ++ x ∷ [])

  emit-capacity : (x : Event) (bus : EventBus H) → (emit x bus).1.capacity ≡ bus.capacity
  unfolding emit
  emit-capacity x bus = refl

  -- The log of a bus whose log is within its capacity is, after any events are emitted, the most
  -- recent events, as many as the capacity, of the log that it had followed by those events.
  pub emit_all-log :
      (capacity : ℕ) (events : List Event) (bus : EventBus H)
      → bus.capacity ≡ some capacity
      → length bus.log ≤ capacity
      → (emit_all events bus).log ≡ recent capacity (bus.log ++ events)
  emit_all-log capacity [] bus e h =
      sym (recent-within capacity bus.log h) ∙ ap (recent capacity) (sym (append-nil bus.log))
  emit_all-log capacity (x ∷ events) bus e h =
      emit_all-log capacity events (emit x bus).1 (emit-capacity x bus ∙ e) (
        subst (λ l. length l ≤ capacity) (sym (emit-log capacity x bus e))
          (length-recent capacity (bus.log ++ x ∷ [])))
      ∙ ap (λ l. recent capacity (l ++ events)) (emit-log capacity x bus e)
      ∙ recent-append capacity (bus.log ++ x ∷ []) events
      ∙ ap (recent capacity) (append_assoc bus.log (x ∷ []) events)
