-- ===== src/Auth/Guarded/Tests.antt =====
-- kanbrick-auth/src/guarded.rs: an L1 caller whose guest reads the persons of a small firm.
use kanbrick_v.Common.{
  is_empty, contains, to_ascii_upper, split_on, Text, codes, List, [], ◌∷◌, ◌++◌, false, none, some,
  ok, err, ◌≡◌, ◌⊎◌, refl, arith, All, retain, text_beq,
}
use kanbrick_v.Core.Clearance.{l1, display, rank}
use kanbrick_v.Core.Context.{FirmContext}
use kanbrick_v.Core.Error.{Error}
use kanbrick_v.Json.{JsonValue, string, object, end, field, get_str, get_field, keys, set_field}
use kanbrick_v.Grants.Store.{AuditEntry}
use kanbrick_v.Mesh.Abi.{GraphQuery, GraphRows}
use kanbrick_v.Scope.Clearance.{ClearanceScope, resolve, can_see_person, can_see_company}
use kanbrick_v.Scope.Rows.{
  IsShown, is_kept, retain_rows, row_is_visible, retain_visible, is_public_roster,
}
use kanbrick_v.Auth.ReadOnly.{
  ensure_read_only, strip_opaque_regions, is_quote, scan, is_word_char, end_word,
  is_ascii_alphanumeric,
}
use kanbrick_v.Auth.ReadOnly.Gate.{IsReadOnly}
use kanbrick_v.Auth.Query.{
  Database, Stamp, QueryResult, Params, json_params, column_key, row_object, rows_to_typed,
}
use kanbrick_v.Auth.Guarded.{
  new_guarded, query_graph, run_query, entry_of, run_checked, record_query, execute_with,
}
use kanbrick_v.Auth.Guarded.Sound.{query_graph_sound}
use kanbrick_v.Auth.Guarded.Keeps.{query_graph_effect, told}

abbrev people : QueryResult
people = record {
  columns = codes "p.email" ∷ [];
  rows = (string (codes "a@k.com") ∷ []) ∷ (string (codes "b@k.com") ∷ []) ∷ [];
}

-- A database that is its audit log, answers every statement with the same persons and is changed by
-- none.
abbrev firm : Database (List AuditEntry) Text
firm = record {
  reads = λ _. record { managed_companies = λ _. ok []; reports_of = λ _. ok [] };
  audits = record {
    match_rows = λ p d. ok (retain p d);
    set_rows = λ p f d. ok d;
    merge_row = λ e d. ok (d ++ e ∷ []);
  };
  query_hash = λ t. t;
  execute = λ cypher params d. (ok people, d);
  as_i64 = λ _. none;
  as_f64 = λ n. some n;
  debug = λ t. t;
}

abbrev caller : FirmContext
caller = record {
  user_id = 1;
  email = codes "a@k.com";
  clearance = l1;
  firm_id = codes "kanbrick";
  roles = [];
  session_id = 2;
  issued_at = 3;
}

abbrev stamp : Stamp
stamp = record { entry_id = codes "e1"; now = codes "t1" }

abbrev scope : ClearanceScope
scope = record {
  clearance = l1;
  self_email = codes "a@k.com";
  sees_all = false;
  visible_company_ids = [];
  visible_person_emails = codes "a@k.com" ∷ [];
}

abbrev asks : Text → GraphQuery
asks cypher = record { cypher = cypher; params = end }

abbrev persons : Text
persons = codes "MATCH (p:Person) RETURN p.email"

abbrev own_row : GraphRows
own_row = record { rows = object (field (codes "email") (string (codes "a@k.com")) end) ∷ [] }

bound : new_guarded firm caller [] ≡ ok scope
unfolding new_guarded resolve
bound = refl

answered :
    query_graph firm stamp caller scope (asks persons) []
    ≡ (ok own_row, entry_of firm stamp caller persons ∷ [])
unfolding query_graph ensure_read_only run_checked strip_opaque_regions is_quote scan is_word_char
    is_empty end_word contains text_beq to_ascii_upper record_query json_params run_query
    retain_rows retain_visible row_is_visible get_str execute_with column_key row_object
    rows_to_typed is_ascii_alphanumeric split_on rank get_field keys set_field can_see_person
    can_see_company is_public_roster display
answered = refl

query_graph_sound_example :
    IsReadOnly persons
    × All (IsShown scope) own_row.rows
    × ((params : Params Text) × (all : List JsonValue) × (d1 : List AuditEntry) × (run_query firm ok
            persons params d1
          ≡ (ok all, entry_of firm stamp caller persons ∷ []))
        × (own_row.rows ≡ retain (is_kept scope) all))
unfolding kanbrick_v.Core.Clearance.ge
query_graph_sound_example =
    query_graph_sound firm stamp caller scope (asks persons) [] []
      (entry_of firm stamp caller persons ∷ []) own_row bound refl answered

query_graph_effect_example :
    ((e : Error) × (ok (entry_of firm stamp caller (told (codes "DROP x")) ∷ []) ≡ err e)
      × (query_graph firm stamp caller scope (asks (codes "DROP x")) [] ≡ (err e, [])))
    ⊎ (query_graph firm stamp caller scope (asks (codes "DROP x")) []).1
      ≡ entry_of firm stamp caller (told (codes "DROP x")) ∷ []
query_graph_effect_example =
    query_graph_effect firm (λ d. d) (λ cypher params d r. refl) (λ e d. d ++ e ∷ [])
      (λ e d d' h. ground arith) stamp caller scope (asks (codes "DROP x")) []
