-- ===== src/Skills/Trust.antt =====
-- kanbrick-api/src/skills.rs over kanbrick-store/src/skill_registry.rs: no one else uses what was
-- published until a lead approves it.
use kanbrick_v.Common.{
  ℕ, List, [], ◌∷◌, All, ◌∙◌, sym, subst, modify, lookup-modify, text_beq_iff, Bool-cases, ◌≡◌,
  refl, arith, ◌⊎◌, Text, text_eq, text_beq, ==_refl, Bool, true, false, some, lookup, ok, err,
  Result-cases, inl, inr, length,
}
use kanbrick_v.Core.Clearance.{l5, ge}
use kanbrick_v.Core.Context.{FirmContext}
use kanbrick_v.Grants.{Chrono}
use kanbrick_v.Grants.Store.{Store, GrantState}
use kanbrick_v.Skills.{
  SkillVersionRecord, SkillDb, Command, execute, version_id, publish_skill_version,
  get_skill_version, set_skill_review, published, publish_commands, review_pending,
  count_skill_versions, skill_owner, or_else, first_owner,
}
use kanbrick_v.Skills.Written.{
  Catalogue, IsSkillView, touch, lookup-touch, reviewed, publish_skill_version-written,
}
use kanbrick_v.Skills.Routes.{ApiError, bind_skill, edition_of, is_approved}
use kanbrick_v.Skills.Gate.{bind_skill_sound}

module _ {D : Type 0} (db : SkillDb D) (view : D → Catalogue) (laws : IsSkillView db view) where
  -- An edition that is read by its key is the one that is stored there.
  pub get_skill_version-found :
      (name version : Text) (d : D) (r edition : SkillVersionRecord)
      → lookup (version_id name version) (view d) ≡ some (some r)
      → (get_skill_version db name version d).0 ≡ ok (some edition)
      → edition ≡ r
  unfolding get_skill_version
  get_skill_version-found name version d r edition e h =
      elim (Result-cases (db.rows_of_version (version_id name version) d)) [
        | inl (rows, q) ↦
            let one = laws.found (version_id name version) d r rows q e in ground arith
        | inr (x, q) ↦ absurd (ground arith)
      ]

  edition_of-found :
      {I : Type 0} (store : Store D) (c : Chrono I) (name version : Text) (g : GrantState D)
      (r edition : SkillVersionRecord)
      → lookup (version_id name version) (view g.db) ≡ some (some r)
      → (edition_of store db c name (some version) g).0 ≡ ok (some edition)
      → edition ≡ r
  unfolding edition_of
  edition_of-found store c name version g r edition e h =
      elim (Result-cases (get_skill_version db name version g.db).0) [
        | inl (o, q) ↦ get_skill_version-found name version g.db r edition e (ground arith)
        | inr (x, q) ↦ absurd (ground arith)
      ]

  -- The edition under a key awaits review and is of this author.
  abbrev pub IsPending : Text → Text → D → Type 0
  IsPending v author d =
      (e : SkillVersionRecord) × (lookup v (view d) ≡ some (some e))
      × (e.review_status ≡ some review_pending)
      × (e.source ≡ author)

  -- What may happen later, whatever comes of it: a publication under another key, or one more by
  -- this author, a review of another edition, and what leaves the editions alone.
  pub data Change (v author : Text) (d : D) : D → Type 0 where
    publishing_other :
        (r : SkillVersionRecord)
        → text_beq (version_id r.skill_name r.version) v ≡ false
        → Change v author d (publish_skill_version db r d).1
    publishing_again :
        (r : SkillVersionRecord)
        → r.source ≡ author
        → Change v author d (publish_skill_version db r d).1
    reviewing_other :
        (name version status reviewer at : Text)
        → text_beq (version_id name version) v ≡ false
        → Change v author d (set_skill_review db name version status reviewer at d).1
    elsewhere : (e : D) → view e ≡ view d → Change v author d e

  pub data Unreviewed (v author : Text) (d : D) : D → Type 0 where
    at_once : Unreviewed v author d d
    after : {e f : D} → Unreviewed v author d e → Change v author e f → Unreviewed v author d f

  abbrev KeepsPending : Text → Text → Command D → Type 0
  KeepsPending v author f = (d e : D) → f d ≡ ok e → IsPending v author d → IsPending v author e

  same_view :
      (v author : Text) (d e : D) → view e ≡ view d → IsPending v author d → IsPending v author e
  same_view v author d e same (x, found, waits, mine) = (x, rw same found, waits, mine)

  execute-IsPending :
      (v author : Text) (fs : List (Command D)) (d : D)
      → All (KeepsPending v author) fs
      → IsPending v author d
      → IsPending v author (execute fs d).1
  execute-IsPending v author [] d all h = h
  execute-IsPending v author (f ∷ fs) d all h = elim (Result-cases (f d)) [
    | inl (e, q) ↦
        let same : (execute (f ∷ fs) d).1 ≡ (execute fs e).1 = ground arith in
        subst (IsPending v author) (sym same)
          (execute-IsPending v author fs e all.1 (all.0 d e q h))
    | inr (x, q) ↦
        let same : (execute (f ∷ fs) d).1 ≡ d = ground arith in
        subst (IsPending v author) (sym same) h
  ]

  touch-IsPending :
      (v author w : Text) (d e : D)
      → view e ≡ touch w (view d)
      → IsPending v author d
      → IsPending v author e
  touch-IsPending v author w d e made (x, found, waits, mine) = (x, still, waits, mine)
    where
      still : lookup v (view e) ≡ some (some x)
      still = ground (arith, made, found, lookup-touch w v (view d), text_beq_iff w v)

  set-IsPending :
      (v author w : Text) (r : SkillVersionRecord) (d e : D)
      → view e ≡ modify w (λ _. some r) (view d)
      → (text_beq w v ≡ false) ⊎ ((r.review_status ≡ some review_pending) × (r.source ≡ author))
      → IsPending v author d
      → IsPending v author e
  set-IsPending v author w r d e made (inl apart) (x, found, waits, mine) = (x, still, waits, mine)
    where
      still : lookup v (view e) ≡ some (some x)
      still = ground (arith, made, found, lookup-modify w v (λ _. some r) (view d))
  set-IsPending v author w r d e made (inr (awaits, own)) (x, found, waits, mine) =
      elim (Bool-cases (text_beq w v)) [
        | inl same ↦ (r, now same, awaits, own)
        | inr apart ↦ (x, still apart, waits, mine)
      ]
    where
      now : text_beq w v ≡ true → lookup v (view e) ≡ some (some r)
      now same =
          ground (arith, made, found, lookup-modify w v (λ _. some r) (view d), text_beq_iff w v)

      still : text_beq w v ≡ false → lookup v (view e) ≡ some (some x)
      still apart = ground (arith, made, found, lookup-modify w v (λ _. some r) (view d))

  publish-IsPending :
      (v author : Text) (r : SkillVersionRecord) (d : D)
      → (text_beq (version_id r.skill_name r.version) v ≡ false) ⊎ (r.source ≡ author)
      → IsPending v author d
      → IsPending v author (publish_skill_version db r d).1
  unfolding publish_skill_version count_skill_versions skill_owner
  publish-IsPending v author r d either h = elim (Result-cases (db.count_rows d)) [
    | inl (n, p) ↦ elim (Result-cases (db.owner_rows r.skill_name d)) [
      | inl (rows, q) ↦
          let fs = publish_commands db (or_else n 0) (or_else (first_owner rows) r.source) r in
          let same : (publish_skill_version db r d).1 ≡ (execute fs d).1 = ground arith in
          subst (IsPending v author) (sym same) (
            execute-IsPending v author fs d
              (commands (or_else n 0) (or_else (first_owner rows) r.source)) h)
      | inr (x, q) ↦
          let same : (publish_skill_version db r d).1 ≡ d = ground arith in
          subst (IsPending v author) (sym same) h
    ]
    | inr (x, p) ↦
        let same : (publish_skill_version db r d).1 ≡ d = ground arith in
        subst (IsPending v author) (sym same) h
  ]
    where
      key : Text
      key = version_id r.skill_name r.version

      either' :
          (seq : ℕ)
          → (text_beq key v ≡ false)
            ⊎ (((published db seq r).review_status ≡ some review_pending)
                × ((published db seq r).source ≡ author))
      either' seq = elim either [ inl apart ↦ inl apart | inr own ↦ inr (refl, own) ]

      commands :
          (seq : ℕ) (owner : Text) → All (KeepsPending v author) (publish_commands db seq owner r)
      commands seq owner = (
        λ x y e h. same_view v author x y (laws.skill_apart _ x y e) h,
        (
          λ x y e h. same_view v author x y (laws.owner_apart _ _ x y e) h,
          (
            λ x y e h. touch-IsPending v author key x y (laws.merged key x y e) h,
            (
              λ x y e h.
                  set-IsPending v author key (published db seq r) x y (laws.fields_set key _ x y e)
                    (either' seq) h,
              (λ x y e h. same_view v author x y (laws.link_apart _ _ x y e) h, tt),
            ),
          ),
        ),
      )

  Change-IsPending :
      (v author : Text) {d e : D}
      → Change v author d e
      → IsPending v author d
      → IsPending v author e
  unfolding set_skill_review
  Change-IsPending v author {d} (publishing_other r apart) h =
      publish-IsPending v author r d (inl apart) h
  Change-IsPending v author {d} (publishing_again r own) h =
      publish-IsPending v author r d (inr own) h
  Change-IsPending v author {d} (reviewing_other name version status reviewer at apart) h =
      execute-IsPending v author (db.set_review (version_id name version) status reviewer at ∷ []) d
        (
          λ x y e (z, found, waits, mine). (
            z,
            rw (laws.review_set (version_id name version) status reviewer at x y e) (
                lookup-modify (version_id name version) v (reviewed status reviewer at) (view x)
                ∙ rw (apart, found) refl),
            waits,
            mine,
          ),
          tt,
        )
        h
  Change-IsPending v author {d} (elsewhere e same) h = same_view v author d e same h

  Unreviewed-IsPending :
      (v author : Text) {d e : D}
      → Unreviewed v author d e
      → IsPending v author d
      → IsPending v author e
  Unreviewed-IsPending v author at_once h = h
  Unreviewed-IsPending v author (after l s) h =
      Change-IsPending v author s (Unreviewed-IsPending v author l h)

  published-IsPending :
      (r : SkillVersionRecord) (d : D)
      → (publish_skill_version db r d).0 ≡ ok tt
      → IsPending (version_id r.skill_name r.version) r.source (publish_skill_version db r d).1
  published-IsPending r d h = (
    published db (length (view d)) r,
    rw
        (
          (publish_skill_version-written db view laws r d h).0 (version_id r.skill_name r.version),
          ==_refl (version_id r.skill_name r.version),
        )
        refl,
    refl,
    refl,
  )

pending_unapproved : is_approved (some review_pending) ≡ false
unfolding text_beq
pending_unapproved = refl

closed :
    (source : Text) (ctx : FirmContext) (top : Bool)
    → text_beq source ctx.email ≡ false
    → top ≡ false
    → (is_approved (some review_pending) ≡ true)
      ⊎ ((text_beq source ctx.email ≡ true) ⊎ (top ≡ true))
    → ⊥
closed source ctx top other low (inl a) = absurd (ground (arith, pending_unapproved))
closed source ctx top other low (inr (inl a)) = absurd (ground arith)
closed source ctx top other low (inr (inr a)) = absurd (ground arith)

-- Once an edition is published, or published again, and as long as it is not reviewed, to bind it by
-- its version is an error for every caller who is not its author and is below L5, whatever it was
-- before and whatever the scope: at once, and after any sequence of other publications, of further
-- publications by the author, of reviews of other editions and of changes that leave the editions
-- alone, failed ones included.
pub published_refused_to_others :
    {D : Type 0} {I : Type 0} (store : Store D) (db : SkillDb D) (c : Chrono I)
    (view : D → Catalogue) (r : SkillVersionRecord) (d : D) (g : GrantState D)
    (skill_id entry_id : Text) (now : I) (ctx : FirmContext) (scope_id : Text)
    (laws : IsSkillView db view)
    → (publish_skill_version db r d).0 ≡ ok tt
    → Unreviewed db view laws
        (version_id r.skill_name r.version)
        r.source
        (publish_skill_version db r d).1
        g.db
    → text_beq r.source ctx.email ≡ false
    → ge ctx.clearance l5 ≡ false
    → (e : ApiError) × ((bind_skill store db c skill_id entry_id now ctx scope_id r.skill_name
          (some r.version)
          g).0
        ≡ err e)
published_refused_to_others store db c view r d g skill_id entry_id now ctx scope_id laws h since
      other low =
    elim (Result-cases
      (bind_skill store db c skill_id entry_id now ctx scope_id r.skill_name (some r.version)
        g).0) [
          | inl (skill, q) ↦
              let (s, edition, _, _, named, allowed, _, _) =
                bind_skill_sound store db c skill_id entry_id now ctx scope_id r.skill_name
                  (some r.version) g skill q in
              let (e, stored, waits, mine) =
                Unreviewed-IsPending db view laws _ r.source since
                  (published-IsPending db view laws r d h) in
              let same =
                edition_of-found db view laws store c r.skill_name r.version g e edition stored
                  named in
              absurd (
                closed r.source ctx (ge ctx.clearance l5) other low
                  (rw (same, waits, mine) at allowed))
          | inr (e, q) ↦ (e, q)
        ]
