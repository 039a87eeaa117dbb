-- ===== src/Auth/Guarded/Keeps.antt =====
-- kanbrick-auth/src/guarded.rs, `query_graph`: what a statement of a guest changes, and the entry
-- that it leaves in the audit log.
use kanbrick_v.Common.{
  Text, codes, ◌++◌, Result, Result-cases, true, ok, err, is_ok, if◌then◌else◌, ◌≡◌, ◌⊎◌, refl, ap,
  ◌∙◌, inl, inr, arith,
}
use kanbrick_v.Common.Action.{Action, ◌>>=◌, pure}
use kanbrick_v.Core.Context.{FirmContext}
use kanbrick_v.Core.Error.{Error}
use kanbrick_v.Grants.Store.{AuditEntry}
use kanbrick_v.Mesh.Abi.{GraphQuery}
use kanbrick_v.Scope.Clearance.{ClearanceScope}
use kanbrick_v.Scope.Rows.{retain_rows}
use kanbrick_v.Auth.ReadOnly.{ensure_read_only}
use kanbrick_v.Auth.ReadOnly.Gate.{IsReadOnly, ensure_read_only_iff}
use kanbrick_v.Auth.Query.{Database, Stamp, QueryResult, Params, json_params, rows_to_typed}
use kanbrick_v.Auth.Guarded.{
  entry_of, written, settled, record_query, execute_with, run_query, query_graph, lift,
  run_recorded, run_filtered, filtered_rows, run_checked,
}

is_ok_unit : (r : Result Error (Unit {0})) → is_ok r ≡ true → r ≡ ok tt
is_ok_unit (ok _) h = refl
is_ok_unit (err e) h = cc

-- What the audit log is told of a statement: a refused one is marked.
abbrev pub told : Text → Text
told cypher =
    if is_ok (ensure_read_only cypher) then cypher else codes "guest-query-refused:" ++ cypher

-- An action that leaves a view of the state as it is.
abbrev Keeps : {S V A : Type 0} → (S → V) → Action S Error A → Type 0
Keeps {S} view m = (s : S) → view (m s).1 ≡ view s

Keeps-bind :
    {S V A B : Type 0} (view : S → V) (m : Action S Error A) (f : A → Action S Error B)
    → Keeps view m
    → ((a : A) → Keeps view (f a))
    → Keeps view (m >>= f)
Keeps-bind {S} {V} {A} {B} view m f hm hf s = go (m s) refl
  where
    go : (p : Result Error A × S) → m s ≡ p → view ((m >>= f) s).1 ≡ view s
    go (ok a, t) e = ground (arith, hf a t, hm s)
    go (err x, t) e = ground (arith, hm s)

module _ {D F V : Type 0} (db : Database D F) (view : D → V)
    (reads_keep : (cypher : Text) (params : Params F) (d : D)
      → IsReadOnly cypher
      → view (db.execute cypher params d).1 ≡ view d) where
  settled-view : (p : Result Text QueryResult × D) → view (settled db p).1 ≡ view p.1
  settled-view (ok rows, d) = refl
  settled-view (err e, d) = refl

  execute-Keeps :
      (cypher : Text) (params : Params F)
      → IsReadOnly cypher
      → Keeps view (execute_with db cypher params)
  unfolding execute_with
  execute-Keeps cypher params r d =
      settled-view (db.execute cypher params d) ∙ reads_keep cypher params d r

  written-view :
      (log : AuditEntry → V → V)
      → ((e : AuditEntry) (d d' : D) → db.audits.merge_row e d ≡ ok d' → view d' ≡ log e (view d))
      → (stamp : Stamp) (ctx : FirmContext) (cypher : Text) (d : D)
      → ((e : Error) × (db.audits.merge_row (entry_of db stamp ctx cypher) d ≡ err e)
          × (record_query db stamp ctx cypher d ≡ (err e, d)))
        ⊎ ((d' : D) × (record_query db stamp ctx cypher d ≡ (ok tt, d'))
            × (view d' ≡ log (entry_of db stamp ctx cypher) (view d)))
  unfolding record_query
  written-view log h stamp ctx cypher d =
      elim (Result-cases (db.audits.merge_row (entry_of db stamp ctx cypher) d)) [
        | inl (d', e) ↦ inr (d', ap (written db d) e, h (entry_of db stamp ctx cypher) d d' e)
        | inr (x, e) ↦ inl (x, e, ap (written db d) e)
      ]

  query-Keeps :
      (cypher : Text) (params : Params F)
      → IsReadOnly cypher
      → Keeps view (run_query db ok cypher params)
  unfolding run_query
  query-Keeps cypher params r =
      Keeps-bind view (execute_with db cypher params)
        (λ result. lift db (rows_to_typed ok result.columns result.rows))
        (execute-Keeps cypher params r) (λ result s. refl)

  recorded-Keeps :
      (scope : ClearanceScope) (q : GraphQuery)
      → IsReadOnly q.cypher
      → Keeps view (run_recorded db scope q)
  recorded-Keeps scope q r =
      Keeps-bind view (lift db (json_params db q.params)) (run_filtered db scope q.cypher)
        (λ s. refl)
        (λ params.
          Keeps-bind view (run_query db ok q.cypher params) (filtered_rows db scope)
            (query-Keeps q.cypher params r)
            (λ rows.
              Keeps-bind view (lift db (retain_rows scope rows))
                (λ filtered. pure (record { rows = filtered })) (λ s. refl) (λ _ s. refl)))

  checked_effect :
      (log : AuditEntry → V → V)
      → ((e : AuditEntry) (d d' : D) → db.audits.merge_row e d ≡ ok d' → view d' ≡ log e (view d))
      → (stamp : Stamp) (ctx : FirmContext) (scope : ClearanceScope) (q : GraphQuery) (d : D)
        (r : Result Error (Unit {0}))
      → (is_ok r ≡ true → IsReadOnly q.cypher)
      → let t = (if is_ok r then q.cypher else codes "guest-query-refused:" ++ q.cypher) in
        ((e : Error) × (db.audits.merge_row (entry_of db stamp ctx t) d ≡ err e)
          × (run_checked db stamp ctx scope q r d ≡ (err e, d)))
        ⊎ (view (run_checked db stamp ctx scope q r d).1 ≡ log (entry_of db stamp ctx t) (view d))
  unfolding run_checked
  checked_effect log h stamp ctx scope q d (ok _) r =
      elim (written-view log h stamp ctx q.cypher d) [
        | inl (e, m, k) ↦ inl (e, m, ground arith)
        | inr (d', k, v) ↦ inr (ground (arith, recorded-Keeps scope q (r refl) d'))
      ]
  checked_effect log h stamp ctx scope q d (err x) r =
      elim (written-view log h stamp ctx (codes "guest-query-refused:" ++ q.cypher) d) [
        | inl (e, m, k) ↦ inl (e, m, ground arith)
        | inr (d', k, v) ↦ inr (ground arith)
      ]

  -- Whatever view of the database is not changed by statements that only read, and whatever an
  -- entry of the audit log does to it: a statement of a guest, run or refused, does that to it for
  -- the one entry that records it, marked if it was refused, and changes nothing else; if the entry
  -- cannot be written, that is the error, and nothing is run and nothing changed.
  pub query_graph_effect :
      (log : AuditEntry → V → V)
      → ((e : AuditEntry) (d d' : D) → db.audits.merge_row e d ≡ ok d' → view d' ≡ log e (view d))
      → (stamp : Stamp) (ctx : FirmContext) (scope : ClearanceScope) (q : GraphQuery) (d : D)
      → ((e : Error) × (db.audits.merge_row (entry_of db stamp ctx (told q.cypher)) d ≡ err e)
          × (query_graph db stamp ctx scope q d ≡ (err e, d)))
        ⊎ (view (query_graph db stamp ctx scope q d).1
            ≡ log (entry_of db stamp ctx (told q.cypher)) (view d))
  unfolding query_graph
  query_graph_effect log h stamp ctx scope q d =
      checked_effect log h stamp ctx scope q d (ensure_read_only q.cypher)
        (λ e. (ensure_read_only_iff q.cypher).0 (is_ok_unit (ensure_read_only q.cypher) e))
