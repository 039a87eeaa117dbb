-- ===== src/Auth/Guarded.antt =====
-- kanbrick-auth/src/guarded.rs, the store that is bound to one caller.
pub mod Sound
pub mod Keeps
mod Tests
use kanbrick_v.Common.{Text, codes, List, ◌++◌, Result, ok, err}
use kanbrick_v.Common.Action.{Action, ◌>>=◌, ◌>>◌, pure, raise}
use kanbrick_v.Core.Clearance.{display}
use kanbrick_v.Core.Context.{FirmContext}
use kanbrick_v.Core.Error.{Error, query}
use kanbrick_v.Json.{JsonValue}
use kanbrick_v.Grants.Store.{AuditEntry}
use kanbrick_v.Mesh.Abi.{GraphQuery, GraphRows}
use kanbrick_v.Scope.Clearance.{ClearanceScope, resolve, retain_persons, retain_companies}
use kanbrick_v.Scope.Rows.{retain_rows}
use kanbrick_v.Auth.ReadOnly.{ensure_read_only}
use kanbrick_v.Auth.Query.{Database, Stamp, QueryResult, Params, rows_to_typed, json_params}

module _ {D F : Type 0} (db : Database D F) where
  -- A result that needs no state, and a reading of the state.
  abbrev pub lift : {A : Type 0} → Result Error A → Action D Error A
  lift r d = (r, d)

  abbrev pub entry_of : Stamp → FirmContext → Text → AuditEntry
  entry_of stamp ctx cypher = record {
    entry_id = stamp.entry_id;
    user_id = ctx.user_id;
    clearance = display ctx.clearance;
    query_hash = db.query_hash cypher;
    timestamp = stamp.now;
  }

  -- A write that succeeds changes the state, and one that fails leaves it.
  abbrev pub written : D → Result Error D → Result Error (Unit {0}) × D
  written d (ok d') = (ok tt, d')
  written d (err e) = (err e, d)

  -- `AuditLog::record`
  unfoldable pub record_query : Stamp → FirmContext → Text → Action D Error (Unit {0})
  record_query stamp ctx cypher d = written d (db.audits.merge_row (entry_of stamp ctx cypher) d)

  -- `query_err`
  abbrev pub settled : Result Text QueryResult × D → Result Error QueryResult × D
  settled (ok rows, d) = (ok rows, d)
  settled (err e, d) = (err (query e), d)

  -- `Store::execute_with`
  unfoldable pub execute_with : Text → Params F → Action D Error QueryResult
  execute_with cypher params d = settled (db.execute cypher params d)

  -- `Store::query`
  unfoldable pub run_query :
      {T : Type 0} → (JsonValue → Result Text T) → Text → Params F → Action D Error (List T)
  unfolding execute_with rows_to_typed
  run_query from_value cypher params = do
    result ← execute_with cypher params
    lift (rows_to_typed from_value result.columns result.rows)

  -- A `GuardedStore`: its caller and the scope that `new` resolved.
  unfoldable pub new_guarded : FirmContext → D → Result Error ClearanceScope
  unfolding resolve
  new_guarded ctx d = resolve (db.reads d) ctx

  unfoldable pub query_persons :
      {P : Type 0}
      → (P → Text)
      → (JsonValue → Result Text P)
      → Stamp
      → FirmContext
      → ClearanceScope
      → Text
      → Params F
      → Action D Error (List P)
  unfolding record_query run_query retain_persons
  query_persons email from_value stamp ctx scope cypher params = do
    record_query stamp ctx cypher
    rows ← run_query from_value cypher params
    pure (retain_persons email scope rows)

  unfoldable pub query_companies :
      {C : Type 0}
      → (C → Text)
      → (JsonValue → Result Text C)
      → Stamp
      → FirmContext
      → ClearanceScope
      → Text
      → Params F
      → Action D Error (List C)
  unfolding record_query run_query retain_companies
  query_companies company_id from_value stamp ctx scope cypher params = do
    record_query stamp ctx cypher
    rows ← run_query from_value cypher params
    pure (retain_companies company_id scope rows)

  -- `query_graph` after the statement is recorded: the filter, the run, and both.
  abbrev pub filtered_rows : ClearanceScope → List JsonValue → Action D Error GraphRows
  filtered_rows scope rows = do
    filtered ← lift (retain_rows scope rows)
    pure (record { rows = filtered })

  abbrev pub run_filtered : ClearanceScope → Text → Params F → Action D Error GraphRows
  run_filtered scope cypher params = do rows ← run_query ok cypher params; filtered_rows scope rows

  abbrev pub run_recorded : ClearanceScope → GraphQuery → Action D Error GraphRows
  run_recorded scope q = do
    params ← lift (json_params db q.params)
    run_filtered scope q.cypher params

  -- `query_graph`, on what the gate says of the statement.
  unfoldable pub run_checked :
      Stamp
      → FirmContext
      → ClearanceScope
      → GraphQuery
      → Result Error (Unit {0})
      → Action D Error GraphRows
  run_checked stamp ctx scope q (err refused) = do
    record_query stamp ctx (codes "guest-query-refused:" ++ q.cypher)
    raise refused
  run_checked stamp ctx scope q (ok _) = do record_query stamp ctx q.cypher; run_recorded scope q

  unfoldable pub query_graph :
      Stamp → FirmContext → ClearanceScope → GraphQuery → Action D Error GraphRows
  query_graph stamp ctx scope q = run_checked stamp ctx scope q (ensure_read_only q.cypher)
