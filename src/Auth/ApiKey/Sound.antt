-- ===== src/Auth/ApiKey/Sound.antt =====
-- kanbrick-auth/src/apikey.rs, `validate`: whom a secret stands for.
use kanbrick_v.Common.{
  ℕ, Text, List, [], ◌∷◌, ◌++◌, map, retain, head?, Bool, nat_beq_iff, Option, none, some, ok_or,
  ok, >>=-eq-ok, ok_injective, All, if◌then◌else◌, ◌≡◌, ◌≢◌, sym, ap, ◌∙◌, arith,
}
use kanbrick_v.Core.Context.{FirmContext}
use kanbrick_v.Core.Error.{Error}
use kanbrick_v.Auth.ApiKey.{
  KeyNode, KeyStore, Session, secret_id, has_key, service_context, validate_row, validate,
}
use kanbrick_v.Auth.ApiKey.Compare.{constant_time_eq_iff}

-- What the keys rely on: a command that succeeds reads or writes the nodes that its pattern names,
-- a node of a new id is created, and the text of an id has no dot and is read back.
pub record KeyLaws {D : Type 0} (store : KeyStore D) (nodes : D → List KeyNode) : Type 0 where
  pub matched :
      (p : KeyNode → Bool) (d : D) (rows : List KeyNode)
      → store.keys.match_rows p d ≡ ok rows
      → rows ≡ retain p (nodes d)
  pub changed :
      (p : KeyNode → Bool) (f : KeyNode → KeyNode) (d d' : D)
      → store.keys.set_rows p f d ≡ ok d'
      → nodes d' ≡ map (λ r. if p r then f r else r) (nodes d)
  pub merged :
      (key_id : ℕ) (r : KeyNode) (d d' : D)
      → r.key_id ≡ store.uuid_text key_id
      → retain (has_key store key_id) (nodes d) ≡ []
      → store.keys.merge_row r d ≡ ok d'
      → nodes d' ≡ nodes d ++ r ∷ []
  pub read_back : (key_id : ℕ) → store.parse_uuid (store.uuid_text key_id) ≡ some key_id
  pub dotless : (key_id : ℕ) → All (λ c. c ≢ b'.') (store.uuid_text key_id)

module _ {D : Type 0} (store : KeyStore D) (nodes : D → List KeyNode)
    (laws : KeyLaws store nodes) where
  -- The node that answers for an id.
  abbrev pub node_of : ℕ → D → Option KeyNode
  node_of key_id d = head? (retain (has_key store key_id) (nodes d))

  ok_or_inv : {A : Type 0} (o : Option A) (e : Error) (a : A) → ok_or o e ≡ ok a → o ≡ some a
  ok_or_inv none e a h = cc
  ok_or_inv (some x) e a h = ap some (ok_injective h)

  row_inv :
      (s : Session) (secret : Text) (key_id : ℕ) (row : KeyNode) (ctx : FirmContext)
      → validate_row store s secret key_id row ≡ ok ctx
      → (row.active ≢ 0)
        × (store.query_hash secret ≡ row.key_hash)
        × (ctx ≡ service_context store s key_id row)
  row_inv s secret key_id row ctx h =
      ground (
        arith,
        nat_beq_iff row.active 0,
        constant_time_eq_iff (store.query_hash secret) row.key_hash,
      )

  -- A secret that is accepted names a key that is on record and active, whose hash is that of the
  -- whole secret; the context is that of the key's service, with the key's clearance.
  pub validate_sound :
      (s : Session) (secret : Text) (d : D) (ctx : FirmContext)
      → validate store s secret d ≡ ok ctx
      → (key_id : ℕ) × (row : KeyNode) × (secret_id store secret ≡ some key_id)
        × (node_of key_id d ≡ some row)
        × (row.active ≢ 0)
        × (store.query_hash secret ≡ row.key_hash)
        × (ctx ≡ service_context store s key_id row)
  unfolding validate
  validate_sound s secret d ctx h =
      let (key_id, e1, h1) = >>=-eq-ok (ok_or (secret_id store secret) _) _ h in
      let (rows, e2, h2) = >>=-eq-ok (store.keys.match_rows (has_key store key_id) d) _ h1 in
      let (row, e3, h3) = >>=-eq-ok (ok_or (head? rows) _) _ h2 in
      let (on, same, is) = row_inv s secret key_id row ctx h3 in
      (
        key_id,
        row,
        ok_or_inv _ _ key_id e1,
        ap head? (sym (laws.matched (has_key store key_id) d rows e2)) ∙ ok_or_inv _ _ row e3,
        on,
        same,
        is,
      )
