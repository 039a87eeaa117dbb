-- ===== src/Grants/Ids.antt =====
-- kanbrick-discovery/src/grants.rs, `join_ids` and `split_ids`: lists of ids as one property.
use kanbrick_v.Common.{
  Text, codes, List, [], ◌∷◌, ◌++◌, false, ◌≡◌, ◌≢◌, refl, All, join, split_on, is_empty, nat_beq,
  if◌then◌else◌,
}

unfoldable pub join_ids : List Text → Text
unfolding join
join_ids ids = join (codes "|") ids

unfoldable pub split_ids : Text → List Text
unfolding split_on is_empty
split_ids s = if is_empty s then [] else split_on b'|' s

-- No id has the separator in it.
abbrev pub NoBar : Text → Type 0
NoBar = All (λ c. nat_beq c b'|' ≡ false)

-- What is stored reads back, unless an id has a bar or the list is that of one empty id.
abbrev pub AreIds : List Text → Type 0
AreIds ids = All NoBar ids × (ids ≢ [] ∷ [])

split_on-NoBar : (s : Text) → NoBar s → split_on b'|' s ≡ s ∷ []
unfolding split_on
split_on-NoBar [] h = refl
split_on-NoBar (c ∷ s) h = rw (h.0, split_on-NoBar s h.1)

split_on-append : (s t : Text) → NoBar s → split_on b'|' (s ++ (b'|' ∷ t)) ≡ s ∷ split_on b'|' t
unfolding split_on
split_on-append [] t h = refl
split_on-append (c ∷ s) t h = rw (h.0, split_on-append s t h.1)

split_on-join :
    (x : Text) (xs : List Text)
    → All NoBar (x ∷ xs)
    → split_on b'|' (join (codes "|") (x ∷ xs)) ≡ x ∷ xs
unfolding join
split_on-join x [] h = split_on-NoBar x h.0
split_on-join x (y ∷ ys) h =
    rw (split_on-append x (join (codes "|") (y ∷ ys)) h.0, split_on-join y ys h.1)

-- A list of ids reads back as it was stored, if no id has a bar and it is not one empty id.
pub split_ids-join_ids : (ids : List Text) → AreIds ids → split_ids (join_ids ids) ≡ ids
unfolding split_ids join_ids
split_ids-join_ids [] h = refl
split_ids-join_ids ([] ∷ []) h = absurd (h.1 refl)
split_ids-join_ids ((c ∷ s) ∷ []) h = split_on-join (c ∷ s) [] h.0
split_ids-join_ids ([] ∷ (y ∷ ys)) h = split_on-join [] (y ∷ ys) h.0
split_ids-join_ids ((c ∷ s) ∷ (y ∷ ys)) h = split_on-join (c ∷ s) (y ∷ ys) h.0
