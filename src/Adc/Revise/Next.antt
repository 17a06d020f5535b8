-- ===== src/Adc/Revise/Next.antt =====
-- What a revision that was saved has passed, and what it leaves.
use cga.Prelude.{
  ℕ, ◌≡◌, sym, ap, ◌∙◌, subst, inl, inr, true, Option, none, ◌∷◌, ◌==◌, arith, Option-cases, ==-eq,
}
use cga.Text.{Text}
use cga.Http.{ok, require, >>=-eq-ok, require-eq-ok, Result-cases}
use cga.Adc.Store.{
  Release, Revision, Store, read_release, find_revision, ProjectState, project_revision,
}
use cga.Adc.Revise.{
  ProjectUpdate, check_changes, check_upgrade, has_id, insert_revision, revision_row, revise,
  commit, save_revision,
}

module _ (casefold : Text → Text) (project : ℕ) (body : ProjectUpdate) (actor : Text)
    (restored_from : Option ℕ) (now : ℕ) where
  -- What the transaction has checked when it inserts its row.
  pub record IsRevised (s s' : Store) : Type 0 where
    pub is_project : has_id project s.projects ≡ true
    pub old : ProjectState
    pub was : project_revision project none now s ≡ ok old
    pub expected : old.revision ≡ body.expected_revision
    pub release : Release
    pub is_release : read_release body.release_id s ≡ ok release
    pub changes_checked : check_changes casefold release.documents body.changes ≡ ok tt
    pub upgrade_checked : check_upgrade old body release.documents ≡ ok tt
    pub same : s' ≡ record s {
      revisions = revision_row project body actor restored_from now old.revision ∷ s.revisions;
    }

  inserted :
      (row : Revision) (s s' : Store)
      → insert_revision row s ≡ ok s'
      → s' ≡ record s { revisions = row ∷ s.revisions }
  unfolding insert_revision
  inserted row s s' h =
      elim (Option-cases (find_revision row.project_id row.revision s.revisions)) [
        | inl e ↦ ground arith
        | inr (found, e) ↦ ground arith
      ]

  pub revise-IsRevised :
      (s s' : Store)
      → revise casefold project body actor restored_from now s ≡ ok s'
      → IsRevised s s'
  unfolding revise
  revise-IsRevised s s' h =
      let (u, is_project, h₁) = >>=-eq-ok (require (has_id project s.projects) 404) _ h in
      let (old, was, h₂) = >>=-eq-ok (project_revision project none now s) _ h₁ in
      let (v, expected, h₃) =
        >>=-eq-ok (require (old.revision == body.expected_revision) 409) _ h₂ in
      let (release, is_release, h₄) = >>=-eq-ok (read_release body.release_id s) _ h₃ in
      let (w, changes, h₅) =
        >>=-eq-ok (check_changes casefold release.documents body.changes) _ h₄ in
      let (x, upgrade, h₆) = >>=-eq-ok (check_upgrade old body release.documents) _ h₅ in
      record {
        is_project = require-eq-ok _ 404 is_project;
        old = old;
        was = was;
        expected = ==-eq _ _ (require-eq-ok _ 409 expected);
        release = release;
        is_release = is_release;
        changes_checked = changes;
        upgrade_checked = upgrade;
        same = inserted _ s s' h₆;
      }

  -- A saved revision is one that the transaction inserted, and whose state was read back.
  pub saved :
      (s s' : Store) (state : ProjectState)
      → save_revision casefold project body actor restored_from now s ≡ (ok state, s')
      → IsRevised s s' × (project_revision project none now s' ≡ ok state)
  unfolding save_revision commit
  saved s s' state h =
      elim (Result-cases (revise casefold project body actor restored_from now s)) [
        | inl (s₁, e) ↦ elim (Result-cases (project_revision project none now s₁)) [
          | inl (state₁, f) ↦
              let same : s₁ ≡ s' = ground arith in
              let read : state₁ ≡ state = ground arith in
              (
                subst (IsRevised s) same (revise-IsRevised s s₁ e),
                ap (project_revision project none now) (sym same) ∙ f ∙ ap ok read,
              )
          | inr (inl (status, f)) ↦ ground arith
          | inr (inr f) ↦ ground arith
        ]
        | inr (inl (status, e)) ↦ ground arith
        | inr (inr e) ↦ ground arith
      ]
