-- ===== src/Admission/Counts.antt =====
-- kanbrick-api/src/admission.rs: how many calls of a guest hold what.
use kanbrick_v.Common.{
  ℕ, ◌+◌, ◌≤◌, Text, text_eq, text_beq, List, [], ◌∷◌, ◌++◌, ◌≡◌, if◌then◌else◌, Bool, true, false,
  ◌&&◌, Option, none, some, arith,
}
use kanbrick_v.Admission.Calls.{
  Stage, turned_away, waiting, holding, running, cancelled, finishing, Call, calls_of,
}

abbrev pub has_queue : Stage → Bool
has_queue turned_away = false
has_queue finishing = false
has_queue _ = true

abbrev pub has_permit : Stage → Bool
has_permit holding = true
has_permit running = true
has_permit finishing = true
has_permit _ = false

abbrev pub is_queued : Stage → Bool
is_queued waiting = true
is_queued holding = true
is_queued cancelled = true
is_queued _ = false

abbrev pub runs : Stage → Bool
runs running = true
runs _ = false

abbrev pub one_if : Bool → ℕ
one_if b = if b then 1 else 0

-- How many of the guest's calls are at such a stage.
abbrev pub count : (Stage → Bool) → Text → List Call → ℕ
count f name [] = 0
count f name (c ∷ cs) = one_if (text_beq c.guest name && f c.stage) + count f name cs

abbrev pub flag : (Stage → Bool) → Option Stage → Bool
flag f none = false
flag f (some stage) = f stage

count-append :
    (f : Stage → Bool) (name : Text) (xs ys : List Call)
    → count f name (xs ++ ys) ≡ count f name xs + count f name ys
count-append f name [] ys = omega arith
count-append f name (x ∷ xs) ys = omega (arith, count-append f name xs ys)

-- The count around a call, or none, of a guest.
pub count-around :
    (f : Stage → Bool) (name guest : Text) (stage : Option Stage) (before after : List Call)
    → count f name (before ++ (calls_of guest stage ++ after))
      ≡ one_if (text_beq guest name && flag f stage) + count f name (before ++ after)
count-around f name guest none before after = ground (arith)
count-around f name guest (some stage) before after = omega (
  arith,
  count-append f name before (record { guest = guest; stage = stage } ∷ after),
  count-append f name before after,
)

pub count_le :
    (f g : Stage → Bool) (name : Text) (cs : List Call)
    → ((stage : Stage) → f stage ≡ true → g stage ≡ true)
    → count f name cs ≤ count g name cs
count_le f g name [] h = omega arith
count_le f g name (c ∷ cs) h = ground (arith, count_le f g name cs h, h c.stage)
