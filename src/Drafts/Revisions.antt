-- ===== src/Drafts/Revisions.antt =====
-- The revision of a draft as a compare-and-swap token.
use universal_agent_studio.Prelude.{
  ℕ, ◌+◌, ◌≡◌, ◌≢◌, refl, some, ok, err, List, [], ◌∷◌, arith, find, update, Option-cases, inl, inr,
}
use universal_agent_studio.Catalog.{
  AgentDraft, Catalog, Tenant, agent_draft_revision_conflict, draft_of, find_agent, find_draft,
}
use universal_agent_studio.Drafts.{UpdateArguments, revised, update_draft, get_draft}

find-update_draft :
    (t : Tenant) (id : ℕ) (args : UpdateArguments) (rows : List AgentDraft) {d : AgentDraft}
    → find (draft_of t id) rows ≡ some d
    → find (draft_of t id) (update (draft_of t id) (revised args) rows) ≡ some (revised args d)
find-update_draft t id args [] h = cc
find-update_draft t id args (r ∷ rows) {d} h =
    ground (arith, find-update_draft t id args rows {d = d})

module _ (t : Tenant) (args : UpdateArguments) (db : Catalog) where
  -- An update that succeeds had the current revision as the expected one. It returns, and leaves
  -- for the next reader of the draft, a draft with the given specification, digest and layout under
  -- the next revision, which is otherwise the one before: its identifier, its tenant, its agent and
  -- the version that it comes from are kept.
  pub get-update_draft :
      (d : AgentDraft)
      → (update_draft t args db).0 ≡ ok d
      → (old : AgentDraft) × (get_draft t args.agent_key db ≡ some old)
        × (old.revision ≡ args.expected_revision)
        × (get_draft t args.agent_key (update_draft t args db).1 ≡ some d)
        × (d.revision ≡ args.expected_revision + 1)
        × (d.agent_spec ≡ args.agent_spec)
        × (d.digest ≡ args.digest)
        × (d.layout ≡ args.layout)
        × (d.id ≡ old.id)
        × (d.workspace_id ≡ old.workspace_id)
        × (d.project_id ≡ old.project_id)
        × (d.agent_id ≡ old.agent_id)
        × (d.base_version_id ≡ old.base_version_id)
  unfolding update_draft get_draft find_draft find_agent
  get-update_draft d h = elim (Option-cases (find_agent t args.agent_key db)) [
    | inl unknown ↦ absurd (ground arith)
    | inr (agent, known) ↦ elim (Option-cases (find_draft t agent.id db)) [
      | inl undrafted ↦ absurd (ground arith)
      | inr (old, found) ↦
          let expected : old.revision ≡ args.expected_revision = ground arith in
          let made : d ≡ revised args old = ground arith in
          (
            old,
            ground arith,
            expected,
            ground (arith, find-update_draft t agent.id args db.drafts {d = old}),
            rw (made) (omega (arith, expected)),
            rw made refl,
            rw made refl,
            rw made refl,
            rw made refl,
            rw made refl,
            rw made refl,
            rw made refl,
            rw made refl,
          )
    ]
  ]

  -- An update against another revision than the draft's is refused and changes nothing.
  pub update_draft_stale :
      (d : AgentDraft)
      → get_draft t args.agent_key db ≡ some d
      → d.revision ≢ args.expected_revision
      → update_draft t args db ≡ (err agent_draft_revision_conflict, db)
  unfolding update_draft get_draft
  update_draft_stale d h stale = ground arith

-- Of two updates that expect the same revision of one draft, the second is refused and changes
-- nothing, whatever it carries.
pub update_draft-update_draft :
    (t : Tenant) (first second : UpdateArguments) (db : Catalog) (d : AgentDraft)
    → second.agent_key ≡ first.agent_key
    → second.expected_revision ≡ first.expected_revision
    → (update_draft t first db).0 ≡ ok d
    → update_draft t second (update_draft t first db).1
      ≡ (err agent_draft_revision_conflict, (update_draft t first db).1)
update_draft-update_draft t first second db d same_key same_revision h =
    let kept = get-update_draft t first db d h in
    update_draft_stale t second _ d (rw same_key kept.3) (omega (arith, kept.4, same_revision))
