-- ===== src/Scope/Rows.antt =====
-- kanbrick-auth/src/scope.rs, `retain_rows`: the fail-closed filter on generic result rows.
use kanbrick_v.Common.{
  Text, codes, List, [], ◌∷◌, ◌++◌, Bool, true, false, not, ◌&&◌, ◌≡◌, refl, arith, contains,
  text_eq, Result, ok, err, ◌>>=◌, if◌then◌else◌, retain, Bool-cases, inl, inr, Option, none, some,
  all, is_empty, All, All-retain, Result-cases, subst, sym, ap, ◌∙◌,
}
use kanbrick_v.Core.Clearance.{l4}
use kanbrick_v.Core.Error.{Error, access_denied}
use kanbrick_v.Json.{JsonValue, Fields, get_str, keys, as_object}
use kanbrick_v.Scope.Clearance.{ClearanceScope, can_see_person, can_see_company}

-- PUBLIC_COMPANY_FIELDS
abbrev pub public_company_fields : List Text
public_company_fields = codes "company_id" ∷ codes "name" ∷ codes "segment" ∷ []

-- The row exposes nothing but the roster identity of a company, and something of it.
unfoldable pub is_public_roster : Fields → Bool
is_public_roster obj =
    not (is_empty (keys obj)) && all (λ k. contains public_company_fields k) (keys obj)

abbrev pub denied : ClearanceScope → Error
denied s = access_denied l4 s.clearance

-- The last test of `row_is_visible`, for a row that is no person and no public roster row.
abbrev pub company_row : ClearanceScope → Option Text → Result Error Bool
company_row s none = err (denied s)
company_row s (some company_id) = ok (can_see_company s company_id)

abbrev pub person_row : ClearanceScope → Fields → Option Text → Result Error Bool
person_row s obj (some email) = ok (can_see_person s email)
person_row s obj none =
    if is_public_roster obj then ok true else company_row s (get_str (codes "company_id") obj)

abbrev pub object_row : ClearanceScope → Option Fields → Result Error Bool
object_row s none = err (denied s)
object_row s (some obj) = person_row s obj (get_str (codes "email") obj)

unfoldable pub row_is_visible : ClearanceScope → JsonValue → Result Error Bool
row_is_visible s row = object_row s (as_object row)

-- The loop over the rows: the first row that is denied denies the whole answer.
unfoldable pub retain_visible : ClearanceScope → List JsonValue → Result Error (List JsonValue)
retain_visible s [] = ok []
retain_visible s (row ∷ rows) = do
  visible ← row_is_visible s row
  out ← retain_visible s rows
  ok (if visible then row ∷ out else out)

unfoldable pub retain_rows : ClearanceScope → List JsonValue → Result Error (List JsonValue)
retain_rows s rows = if s.sees_all then ok rows else retain_visible s rows

-- What may be shown to a caller who does not see all, as a statement about the row alone.
pub data Shown (s : ClearanceScope) (obj : Fields) : Type 0 where
  person :
      (email : Text)
      → get_str (codes "email") obj ≡ some email
      → can_see_person s email ≡ true
      → Shown s obj
  roster : get_str (codes "email") obj ≡ none → is_public_roster obj ≡ true → Shown s obj
  company :
      (id : Text)
      → get_str (codes "email") obj ≡ none
      → get_str (codes "company_id") obj ≡ some id
      → can_see_company s id ≡ true
      → Shown s obj

abbrev pub IsShown : ClearanceScope → JsonValue → Type 0
IsShown s row = (obj : Fields) × (as_object row ≡ some obj) × Shown s obj

company_row-Shown :
    (s : ClearanceScope) (obj : Fields) (id : Option Text)
    → get_str (codes "email") obj ≡ none
    → get_str (codes "company_id") obj ≡ id
    → company_row s id ≡ ok true
    → Shown s obj
company_row-Shown s obj none n e h = cc
company_row-Shown s obj (some id) n e h = company id n e (ground arith)

person_row-Shown :
    (s : ClearanceScope) (obj : Fields) (email : Option Text)
    → get_str (codes "email") obj ≡ email
    → person_row s obj email ≡ ok true
    → Shown s obj
person_row-Shown s obj (some email) e h = person email e (ground arith)
person_row-Shown s obj none e h = elim (Bool-cases (is_public_roster obj)) [
  | inl public ↦ roster e public
  | inr detail ↦ company_row-Shown s obj (get_str (codes "company_id") obj) e refl (rw detail at h)
]

visible_IsShown :
    (s : ClearanceScope) (row : JsonValue) → row_is_visible s row ≡ ok true → IsShown s row
unfolding row_is_visible
visible_IsShown s row h = go (as_object row) refl h
  where
    go : (o : Option Fields) → as_object row ≡ o → object_row s o ≡ ok true → IsShown s row
    go none e k = cc
    go (some obj) e k = (obj, e, person_row-Shown s obj (get_str (codes "email") obj) refl k)

Shown-visible :
    (s : ClearanceScope) (obj : Fields)
    → Shown s obj
    → person_row s obj (get_str (codes "email") obj) ≡ ok true
Shown-visible s obj (person email e c) = rw (e, c)
Shown-visible s obj (roster e p) = rw (e, p)
Shown-visible s obj (company id e i c) = elim (Bool-cases (is_public_roster obj)) [
  | inl public ↦ rw (e, public)
  | inr detail ↦ rw (e, detail, i, c)
]

IsShown-visible :
    (s : ClearanceScope) (row : JsonValue) → IsShown s row → row_is_visible s row ≡ ok true
unfolding row_is_visible
IsShown-visible s row (obj, e, h) = rw e (Shown-visible s obj h)

-- A row can be classified when the filter has an answer for it.
abbrev is_classified : ClearanceScope → JsonValue → Bool
is_classified s row = elim (row_is_visible s row) [ ok _ ↦ true | err _ ↦ false ]

abbrev pub is_kept : ClearanceScope → JsonValue → Bool
is_kept s row = elim (row_is_visible s row) [ ok b ↦ b | err _ ↦ false ]

retain_visible-eq :
    (s : ClearanceScope) (rows : List JsonValue)
    → all (is_classified s) rows ≡ true
    → retain_visible s rows ≡ ok (retain (is_kept s) rows)
unfolding retain_visible
retain_visible-eq s [] h = refl
retain_visible-eq s (row ∷ rows) h = ground (arith, retain_visible-eq s rows)

retain_visible-classified :
    (s : ClearanceScope) (rows out : List JsonValue)
    → retain_visible s rows ≡ ok out
    → all (is_classified s) rows ≡ true
unfolding retain_visible
retain_visible-classified s [] out h = refl
retain_visible-classified s (row ∷ rows) out h = elim (Result-cases (retain_visible s rows)) [
  | inl (rest, e) ↦ ground (arith, retain_visible-classified s rows rest e)
  | inr (x, e) ↦ ground arith
]

is_kept-IsShown :
    (s : ClearanceScope) (rows : List JsonValue)
    → All (λ row. is_kept s row ≡ true) rows
    → All (IsShown s) rows
is_kept-IsShown s [] h = tt
is_kept-IsShown s (row ∷ rows) h =
    (visible_IsShown s row (ground arith), is_kept-IsShown s rows h.1)

-- For a caller who does not see all, an answer that is let through holds exactly the rows of the
-- query that may be shown, in order; every row that it holds is that of a visible person, a bare
-- roster row, or that of a visible company.
pub retain_rows_sound :
    (s : ClearanceScope) (rows out : List JsonValue)
    → s.sees_all ≡ false
    → retain_rows s rows ≡ ok out
    → All (IsShown s) out × (out ≡ retain (is_kept s) rows)
unfolding retain_rows
retain_rows_sound s rows out n h =
    let e : retain_visible s rows ≡ ok out = ground arith in
    let kept = retain_visible-eq s rows (retain_visible-classified s rows out e) in
    let q : retain (is_kept s) rows ≡ out = ground arith in
    (
      subst (λ l. All (IsShown s) l) q
          (is_kept-IsShown s (retain (is_kept s) rows) (All-retain (is_kept s) rows)),
      sym q,
    )

retain_visible-denied :
    (s : ClearanceScope) (before after : List JsonValue) (row : JsonValue)
    → row_is_visible s row ≡ err (denied s)
    → (e : Error) × (retain_visible s (before ++ (row ∷ after)) ≡ err e)
unfolding retain_visible
retain_visible-denied s [] after row h = (denied s, rw h)
retain_visible-denied s (r ∷ before) after row h = elim (Result-cases (row_is_visible s r)) [
  | inl (b, e) ↦ let (x, later) = retain_visible-denied s before after row h in (x, rw (e, later))
  | inr (x, e) ↦ (x, rw e)
]

row_is_visible_error :
    (s : ClearanceScope) (row : JsonValue) (e : Error) → row_is_visible s row ≡ err e → e ≡ denied s
unfolding row_is_visible
row_is_visible_error s row e h = ground arith

retain_visible_error :
    (s : ClearanceScope) (rows : List JsonValue) (e : Error)
    → retain_visible s rows ≡ err e
    → e ≡ denied s
unfolding retain_visible
retain_visible_error s [] e h = cc
retain_visible_error s (row ∷ rows) e h = elim (Result-cases (row_is_visible s row)) [
  | inl (b, q) ↦ elim (Result-cases (retain_visible s rows)) [
    | inl (out, r) ↦ ground arith
    | inr (x, r) ↦ ground (arith, retain_visible_error s rows x r)
  ]
  | inr (x, q) ↦ ground (arith, row_is_visible_error s row x q)
]

-- A single row with no clearance key, wherever it stands, denies the whole answer: nothing of it is
-- let through.
pub retain_rows_fails_closed :
    (s : ClearanceScope) (before after : List JsonValue) (row : JsonValue)
    → s.sees_all ≡ false
    → row_is_visible s row ≡ err (denied s)
    → retain_rows s (before ++ (row ∷ after)) ≡ err (denied s)
unfolding retain_rows
retain_rows_fails_closed s before after row n h =
    let (e, q) = retain_visible-denied s before after row h in
    simp n (q ∙ ap err (retain_visible_error s (before ++ (row ∷ after)) e q))

-- A row that names a visible person is kept whatever else it shows, the details of a company that
-- the caller may not see included.
pub person_row_hides_nothing :
    (s : ClearanceScope) (row : JsonValue) (obj : Fields) (email id : Text)
    → as_object row ≡ some obj
    → get_str (codes "email") obj ≡ some email
    → can_see_person s email ≡ true
    → get_str (codes "company_id") obj ≡ some id
    → can_see_company s id ≡ false
    → retain_rows s (row ∷ []) ≡ ok (row ∷ [])
unfolding retain_rows retain_visible row_is_visible
person_row_hides_nothing s row obj email id o e c i hidden = ground arith
