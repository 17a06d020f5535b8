-- ===== src/Adc/Revise/History.antt =====
-- The history of a project's revisions: the row that a save adds, and the state that it returns.
use cga.Prelude.{ℕ, suc, ◌≡◌, refl, sym, ap, ◌∙◌, Option, none, some, ◌∷◌, arith}
use cga.Text.{Text}
use cga.Http.{ok_eq, ok, >>=-eq-ok}
use cga.Adc.Documents.{effective}
use cga.Adc.Store.{
  Release, Revision, Store, read_release, later, latest_revision, ProjectState, state_of,
  current_state, project_revision,
}
use cga.Adc.Revise.{ProjectUpdate, revision_row, save_revision}
use cga.Adc.Revise.Next.{IsRevised, saved}

-- The number of the state that a row gives.
pub state_number :
    (row : Revision) (at : ℕ) (s : Store) (state : ProjectState)
    → state_of row at s ≡ ok state
    → state.revision ≡ row.revision
unfolding state_of
state_number row at s state h =
    let (release, e, rest) = >>=-eq-ok (read_release row.release_id s) _ h in ground arith

-- A row with the next number is the latest one.
later_next :
    (row : Revision) (o : Option Revision) (now : ℕ) (s : Store) (old : ProjectState)
    → current_state o now s ≡ ok old
    → row.revision ≡ suc old.revision
    → later row o ≡ some row
later_next row none now s old h e = refl
later_next row (some best) now s old h e = ground (arith, state_number best now s old h)

pub latest_next :
    (project now : ℕ) (row : Revision) (s : Store) (old : ProjectState)
    → row.project_id ≡ project
    → project_revision project none now s ≡ ok old
    → row.revision ≡ suc old.revision
    → latest_revision project (row ∷ s.revisions) ≡ some row
unfolding latest_revision project_revision
latest_next project now row s old own h e =
    let first : later row (latest_revision project s.revisions) ≡ some row =
      later_next row _ now s old h e in
    ground (arith, own, first)

pub state_of_row :
    (row : Revision) (at : ℕ) (s : Store) (release : Release)
    → read_release row.release_id s ≡ ok release
    → state_of row at s
      ≡ ok (record {
        revision = row.revision;
        release = some release;
        changes = (effective release.documents row.changes at).1;
        documents = (effective release.documents row.changes at).0;
        reviewed_paths = row.reviewed_paths;
        evaluated_at = some at;
      })
unfolding state_of
state_of_row row at s release h = rw (state_of, h) refl

-- The state that a revision's row has, given its release.
abbrev pub new_state : ℕ → ProjectUpdate → Release → ℕ → ProjectState
new_state old body release now = record {
  revision = suc old;
  release = some release;
  changes = (effective release.documents body.changes now).1;
  documents = (effective release.documents body.changes now).0;
  reviewed_paths = body.reviewed_paths;
  evaluated_at = some now;
}

module _ (casefold : Text → Text) (project : ℕ) (body : ProjectUpdate) (actor : Text)
    (restored_from : Option ℕ) (now : ℕ) where
  -- What is read after the INSERT.
  pub read_new :
      (s s' : Store) (r : IsRevised casefold project body actor restored_from now s s')
      → project_revision project none now s' ≡ ok (new_state r.old.revision body r.release now)
  unfolding project_revision
  read_new s s' r =
      let row = revision_row project body actor restored_from now r.old.revision in
      let s₁ : Store = record s { revisions = row ∷ s.revisions } in
      let latest : latest_revision project (row ∷ s.revisions) ≡ some row =
        latest_next project now row s r.old refl r.was refl in
      ap (project_revision project none now) r.same
      ∙ ap (λ o. current_state o now s₁) latest
      ∙ state_of_row row now s₁ r.release r.is_release

  -- A saved revision is the one after the revision that its author expected, of a release that exists;
  -- it is one row before all that stood, and the state returned shows the release's documents with its changes applied.
  pub save_revision_lem :
      (s s' : Store) (state : ProjectState)
      → save_revision casefold project body actor restored_from now s ≡ (ok state, s')
      → (release : Release) × (read_release body.release_id s ≡ ok release)
        × (state ≡ new_state body.expected_revision body release now)
        × (s' ≡ record s {
          revisions =
              revision_row project body actor restored_from now body.expected_revision
              ∷ s.revisions;
        })
  save_revision_lem s s' state h =
      let (r, read) = saved casefold project body actor restored_from now s s' state h in
      (
        r.release,
        r.is_release,
        ok_eq _ _ (sym read ∙ read_new s s' r)
            ∙ ap (λ n. new_state n body r.release now) r.expected,
        r.same
            ∙ ap
                (λ n. record s {
                  revisions = revision_row project body actor restored_from now n ∷ s.revisions;
                })
                r.expected,
      )
