-- ===== src/Auth/Guarded/Sound.antt =====
-- kanbrick-auth/src/guarded.rs, `query_graph`: what a guest gets, and what it leaves behind.
use kanbrick_v.Common.{
  codes, List, ◌++◌, false, Result, ok, err, ok_injective, ok_ne_err, ◌≡◌, refl, sym, ap, ◌∙◌,
  arith, All, retain,
}
use kanbrick_v.Common.Action.{Action, ◌>>=◌, pure, raise, bind_ok}
use kanbrick_v.Core.Clearance.{ge, l4}
use kanbrick_v.Core.Context.{FirmContext}
use kanbrick_v.Core.Error.{Error}
use kanbrick_v.Json.{JsonValue}
use kanbrick_v.Mesh.Abi.{GraphQuery, GraphRows}
use kanbrick_v.Scope.Clearance.{ClearanceScope, resolve}
use kanbrick_v.Scope.Rows.{retain_rows, retain_rows_sound, IsShown, is_kept}
use kanbrick_v.Auth.ReadOnly.{ensure_read_only}
use kanbrick_v.Auth.ReadOnly.Gate.{IsReadOnly, ensure_read_only_iff}
use kanbrick_v.Auth.Query.{Database, Stamp, Params, json_params}
use kanbrick_v.Auth.Guarded.{
  record_query, run_query, new_guarded, run_recorded, run_filtered, filtered_rows, run_checked,
  query_graph, lift,
}

raise_fails :
    {S A B : Type 0} (m : Action S Error A) (e : Error) (s s' : S) (b : B)
    → (m >>= λ _. raise e) s ≡ (ok b, s')
    → ⊥
raise_fails m e s s' b h =
    let (_, t, _, k) = bind_ok m (λ _. raise e) s s' b h in ok_ne_err (sym (ap (λ p. p.0) k))

module _ {D F : Type 0} (db : Database D F) (stamp : Stamp) (ctx : FirmContext) where
  -- The rows that a guarded run lets through are the filtered rows of one run of the statement.
  answer :
      (scope : ClearanceScope) (q : GraphQuery) (d d' : D) (rows : GraphRows)
      → run_checked db stamp ctx scope q (ok tt) d ≡ (ok rows, d')
      → (params : Params F) × (all : List JsonValue) × (d1 : D) × (run_query db ok q.cypher params
            d1
          ≡ (ok all, d'))
        × (retain_rows scope all ≡ ok rows.rows)
  unfolding run_checked
  answer scope q d d' rows h =
      let (_, d1, _, h1) =
        bind_ok (record_query db stamp ctx q.cypher) (λ _. run_recorded db scope q) d d' rows h in
      let (params, d2, e2, h2) =
        bind_ok (lift db (json_params db q.params)) (run_filtered db scope q.cypher) d1 d' rows
          h1 in
      let (all, d3, e3, h3) =
        bind_ok (run_query db ok q.cypher params) (filtered_rows db scope) d2 d' rows h2 in
      let (kept, d4, e4, h4) =
        bind_ok (lift db (retain_rows scope all)) (λ filtered. pure (record { rows = filtered })) d3
          d' rows h3 in
      (
        params,
        all,
        d2,
        e3 ∙ ap (λ t. (ok all, t)) (ap (λ p. p.1) e4 ∙ ap (λ p. p.1) h4),
        ap (λ p. p.0) e4 ∙ ap (λ r. ok r.rows) (ok_injective (ap (λ p. p.0) h4)),
      )

  passed :
      (scope : ClearanceScope) (q : GraphQuery) (d d' : D) (rows : GraphRows)
      (r : Result Error (Unit {0}))
      → ensure_read_only q.cypher ≡ r
      → run_checked db stamp ctx scope q r d ≡ (ok rows, d')
      → IsReadOnly q.cypher × (run_checked db stamp ctx scope q (ok tt) d ≡ (ok rows, d'))
  unfolding run_checked
  passed scope q d d' rows (ok _) e h = ((ensure_read_only_iff q.cypher).0 e, h)
  passed scope q d d' rows (err x) e h = absurd (
      raise_fails (record_query db stamp ctx (codes "guest-query-refused:" ++ q.cypher)) x d d' rows
        h)

  narrow :
      (d : D) (scope : ClearanceScope)
      → new_guarded db ctx d ≡ ok scope
      → ge ctx.clearance l4 ≡ false
      → scope.sees_all ≡ false
  unfolding new_guarded resolve
  narrow d scope h n = ground arith

  -- What a guest gets on behalf of a caller below L4: a statement that is answered only reads, and
  -- the rows are, in order, those rows of one run of it that may be shown to the caller, each that
  -- of a visible person, a bare roster row, or that of a visible company.
  pub query_graph_sound :
      (scope : ClearanceScope) (q : GraphQuery) (bound d d' : D) (rows : GraphRows)
      → new_guarded db ctx bound ≡ ok scope
      → ge ctx.clearance l4 ≡ false
      → query_graph db stamp ctx scope q d ≡ (ok rows, d')
      → IsReadOnly q.cypher
        × All (IsShown scope) rows.rows
        × ((params : Params F) × (all : List JsonValue) × (d1 : D) × (run_query db ok q.cypher
                params d1
              ≡ (ok all, d'))
            × (rows.rows ≡ retain (is_kept scope) all))
  unfolding query_graph
  query_graph_sound scope q bound d d' rows hs hc h =
      let (reads, run) = passed scope q d d' rows (ensure_read_only q.cypher) refl h in
      let (params, all, d1, ran, kept) = answer scope q d d' rows run in
      let (shown, same) = retain_rows_sound scope all rows.rows (narrow bound scope hs hc) kept in
      (reads, shown, (params, all, d1, ran, same))
