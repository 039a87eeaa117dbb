-- ===== src/Auth/ApiKey/Rotated.antt =====
-- kanbrick-auth/src/apikey.rs, `rotate`: which secrets are accepted when it is done, or has failed.
use kanbrick_v.Common.{
  ◌⊎◌, ok_ne_err, ℕ, Text, List, [], ◌∷◌, ◌++◌, map, append-nil, retain, retain-append, head?,
  false, Bool-cases, text_beq, text_beq_iff, some, Result-cases, ok, err, ok_injective,
  if◌then◌else◌, ◌≡◌, ◌≢◌, refl, sym, ap, subst, ◌∙◌, arith, inl, inr,
}
use kanbrick_v.Common.Action.{pure, command, bind_ok, bind_err, command_ok, command_err}
use kanbrick_v.Core.Clearance.{ClearanceLevel}
use kanbrick_v.Core.Error.{Error}
use kanbrick_v.SkillFile.Lines.{split_once-append}
use kanbrick_v.Auth.ApiKey.{
  IssuedKey, KeyNode, KeyStore, Session, secret_id, id_of, has_key, issued_secret, issued_node,
  service_context, validate,
}
use kanbrick_v.Auth.ApiKey.Rotate.{issue, deactivate, revoke_key, rotate}
use kanbrick_v.Auth.ApiKey.Compare.{constant_time_eq_iff}
use kanbrick_v.Auth.ApiKey.Sound.{KeyLaws, node_of, validate_sound}

module _ {D : Type 0} (store : KeyStore D) (nodes : D → List KeyNode)
    (laws : KeyLaws store nodes) where
  ids_differ : (a b : ℕ) → a ≢ b → text_beq (store.uuid_text a) (store.uuid_text b) ≡ false
  ids_differ a b n = elim (Bool-cases (text_beq (store.uuid_text a) (store.uuid_text b))) [
    | inl same ↦
        let texts = (text_beq_iff (store.uuid_text a) (store.uuid_text b)).0 same in
        let ids = sym (laws.read_back a) ∙ ap store.parse_uuid texts ∙ laws.read_back b in
        absurd (n (some_injective ids))
    | inr other ↦ other
  ]
    where
      some_injective : some a ≡ some b → a ≡ b
      some_injective e = cc

  -- No node that answers for a revoked id is active.
  revoked_rows :
      (key_id : ℕ) (rows : List KeyNode) (row : KeyNode)
      → head? (
          retain
            (has_key store key_id)
            (map (λ r. if has_key store key_id r then record r { active = 0 } else r) rows))
        ≡ some row
      → row.active ≡ 0
  revoked_rows key_id [] row h = cc
  revoked_rows key_id (r ∷ rows) row h = elim (Bool-cases (has_key store key_id r)) [
    | inl mine ↦ ground arith
    | inr other ↦ ground (arith, revoked_rows key_id rows row)
  ]

  refused_if :
      (s : Session) (secret : Text) (key_id : ℕ) (d : D)
      → secret_id store secret ≡ some key_id
      → ((row : KeyNode) → node_of store nodes laws key_id d ≡ some row → row.active ≡ 0)
      → (e : Error) × (validate store s secret d ≡ err e)
  refused_if s secret key_id d id off = elim (Result-cases (validate store s secret d)) [
    | inr (e, h) ↦ (e, h)
    | inl (ctx, h) ↦
        let (k, row, e, found, on, _, _) = validate_sound store nodes laws s secret d ctx h in
        absurd
          (on (off row (subst (λ x. node_of store nodes laws x d ≡ some row) (same k e) found)))
  ]
    where
      same : (k : ℕ) → secret_id store secret ≡ some k → k ≡ key_id
      same k e = let both : some k ≡ some key_id = sym e ∙ id in cc

  read_secret :
      (key_id : ℕ) (random : Text)
      → secret_id store (issued_secret store key_id random) ≡ some key_id
  read_secret key_id random =
      ap (id_of store)
        (split_once-append b'.' (store.uuid_text key_id) random (laws.dotless key_id))
      ∙ laws.read_back key_id

  still_none :
      (key_id other : ℕ) (rows : List KeyNode)
      → retain (has_key store other) rows ≡ []
      → retain
          (has_key store other)
          (map (λ r. if has_key store key_id r then record r { active = 0 } else r) rows)
        ≡ []
  still_none key_id other [] h = refl
  still_none key_id other (r ∷ rows) h = elim (Bool-cases (has_key store key_id r)) [
    | inl mine ↦ ground (arith, still_none key_id other rows)
    | inr apart ↦ ground (arith, still_none key_id other rows)
  ]

  -- The node that a fresh key is issued with answers for its id, and for no other.
  issued_rows :
      (key_id new_id : ℕ) (random service : Text) (clearance : ClearanceLevel) (rows : List KeyNode)
      → key_id ≢ new_id
      → retain (has_key store new_id) rows ≡ []
      → (retain
            (has_key store new_id)
            (rows ++ issued_node store new_id random service clearance ∷ [])
          ≡ issued_node store new_id random service clearance ∷ [])
        × (retain
              (has_key store key_id)
              (rows ++ issued_node store new_id random service clearance ∷ [])
            ≡ retain (has_key store key_id) rows)
  issued_rows key_id new_id random service clearance rows apart none_yet =
      let node = issued_node store new_id random service clearance in
      (
        retain-append (has_key store new_id) rows (node ∷ [])
            ∙ rw
                (none_yet, (text_beq_iff (store.uuid_text new_id) (store.uuid_text new_id)).1 refl),
        retain-append (has_key store key_id) rows (node ∷ [])
            ∙ rw (ids_differ new_id key_id (λ e. apart (sym e)))
                (append-nil (retain (has_key store key_id) rows)),
      )

  accepts :
      (s : Session) (key_id : ℕ) (random service : Text) (clearance : ClearanceLevel) (d : D)
      (rows : List KeyNode)
      → retain (has_key store key_id) (nodes d)
        ≡ issued_node store key_id random service clearance ∷ []
      → store.keys.match_rows (has_key store key_id) d ≡ ok rows
      → validate store s (issued_secret store key_id random) d
        ≡ ok (service_context store s key_id (issued_node store key_id random service clearance))
  unfolding validate
  accepts s key_id random service clearance d rows h e = rw (
    read_secret key_id random,
    e,
    laws.matched (has_key store key_id) d rows e ∙ h,
    (constant_time_eq_iff _ _).1 refl,
  )

  -- What a rotation that issues a key, and one that fails, did to the database.
  rotated_by :
      (key_id new_id : ℕ) (random service : Text) (clearance : ClearanceLevel) (d d' : D)
      (k : IssuedKey)
      → rotate store key_id new_id random service clearance d ≡ (ok k, d')
      → (d1 : D) × (nodes d1
          ≡ map (λ r. if has_key store key_id r then record r { active = 0 } else r) (nodes d))
        × (store.keys.merge_row (issued_node store new_id random service clearance) d1 ≡ ok d')
        × (k.secret ≡ issued_secret store new_id random)
  unfolding rotate issue revoke_key
  rotated_by key_id new_id random service clearance d d' k h =
      let node = issued_node store new_id random service clearance in
      let (u, d1, e1, h1) =
        bind_ok (revoke_key store key_id) (λ _. issue store new_id random service clearance) d d' k
          h in
      let (v, d2, e2, h2) =
        bind_ok (command (store.keys.merge_row node)) (λ _. pure _) d1 d' k h1 in
      (
        d1,
        laws.changed (has_key store key_id) _ d d1 (command_ok (deactivate store key_id) d d1 u e1),
        command_ok (store.keys.merge_row node) d1 d2 v e2 ∙ ap (λ p. ok p.1) h2,
        ap IssuedKey.secret (sym (ok_injective (ap (λ p. p.0) h2))),
      )

  -- A rotation that fails either changed nothing, or every secret of the old key is refused.
  pub rotate_fails :
      (s : Session) (key_id new_id : ℕ) (random service old : Text) (clearance : ClearanceLevel)
      (d d' : D) (x : Error)
      → rotate store key_id new_id random service clearance d ≡ (err x, d')
      → secret_id store old ≡ some key_id
      → (d' ≡ d) ⊎ ((e : Error) × (validate store s old d' ≡ err e))
  unfolding rotate issue revoke_key
  rotate_fails s key_id new_id random service old clearance d d' x h id =
      let node = issued_node store new_id random service clearance in
      elim (bind_err (revoke_key store key_id) (λ _. issue store new_id random service clearance) d
        d' x h) [
          | inl failed ↦ inl (command_err (deactivate store key_id) d d' x failed)
          | inr (u, d1, e1, h1) ↦
              let revoked =
                laws.changed (has_key store key_id) _ d d1
                  (command_ok (deactivate store key_id) d d1 u e1) in
              elim (bind_err (command (store.keys.merge_row node)) (λ _. pure _) d1 d' x h1) [
                | inl failed ↦
                    let same = command_err (store.keys.merge_row node) d1 d' x failed in
                    inr (
                      refused_if s old key_id d' id (λ row found.
                        revoked_rows key_id (nodes d) row (
                          ap (λ n. head? (retain (has_key store key_id) n))
                            (sym revoked ∙ ap nodes (sym same))
                          ∙ found)))
                | inr (v, d2, e2, h2) ↦ absurd (ok_ne_err (ap (λ p. p.0) h2))
              ]
        ]

  -- After a rotation to a new id, every secret of the old key is refused, and the secret that was
  -- issued stands for the service with the clearance that were given, if the database can be read.
  pub rotate_sound :
      (s : Session) (key_id new_id : ℕ) (random service old : Text) (clearance : ClearanceLevel)
      (d d' : D) (k : IssuedKey) (rows : List KeyNode)
      → key_id ≢ new_id
      → retain (has_key store new_id) (nodes d) ≡ []
      → rotate store key_id new_id random service clearance d ≡ (ok k, d')
      → secret_id store old ≡ some key_id
      → store.keys.match_rows (has_key store new_id) d' ≡ ok rows
      → ((e : Error) × (validate store s old d' ≡ err e))
        × (validate store s k.secret d'
            ≡ ok (
                service_context store s new_id (issued_node store new_id random service clearance)))
  rotate_sound s key_id new_id random service old clearance d d' k rows apart fresh h id readable =
      let node = issued_node store new_id random service clearance in
      let (d1, revoked, e2, secret) = rotated_by key_id new_id random service clearance d d' k h in
      let unused =
        ap (retain (has_key store new_id)) revoked ∙ still_none key_id new_id (nodes d) fresh in
      let written = laws.merged new_id node d1 d' refl unused e2 in
      let (new_rows, old_rows) =
        issued_rows key_id new_id random service clearance (nodes d1) apart unused in
      (
        refused_if s old key_id d' id (λ row found. revoked_rows key_id (nodes d) row (
            sym (
              ap head? (
                ap (retain (has_key store key_id)) written
                ∙ old_rows
                ∙ ap (retain (has_key store key_id)) revoked))
            ∙ found)),
        ap (λ x. validate store s x d') secret
            ∙ accepts s new_id random service clearance d' rows
                (ap (retain (has_key store new_id)) written ∙ new_rows) readable,
      )
