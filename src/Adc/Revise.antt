-- ===== src/Adc/Revise.antt =====
-- `save_revision` and `onboarding`: a new revision of a project, on the condition that it is the next one.
pub mod Next
pub mod History
pub mod Guards
pub mod Numbers
use cga.Prelude.{
  ℕ, zero, suc, String, Bool, true, false, ◌&&◌, ◌||◌, not, Option, none, some, List, [], ◌∷◌, ◌++◌,
  ◌==◌, ltb, any, if◌then◌else◌, map,
}
use cga.Text.{Text, text_eq, has_text}
use cga.Http.{Result, ok, http, error, ◌>>=◌, ◌>>◌, require}
use cga.Adc.Documents.{
  Document, Documents, content_at, has_path, Kind, amendment, override, exemption, Change, Status,
}
use cga.Adc.Store.{
  Release, Revision, Store, read_release, find_revision, latest_release, ProjectState,
  project_revision,
}

pub record ProjectUpdate : Type 0 where
  pub release_id : ℕ
  pub expected_revision : ℕ
  pub reason : Text
  pub changes : List Change
  pub reviewed_paths : List Text

abbrev is_amendment : Kind → Bool
is_amendment amendment = true
is_amendment override = false
is_amendment exemption = false

-- A path of the release that differs from the change's by case only. `casefold` is `str.casefold`.
unfoldable pub differs_by_case : (Text → Text) → Text → Documents → Bool
differs_by_case casefold path [] = false
differs_by_case casefold path (d ∷ ds) =
    (text_eq (casefold d.path) (casefold path) && not (text_eq d.path path))
    || differs_by_case casefold path ds

-- The loop over the changes: an amendment adds a document, the other two concern one of the release.
abbrev pub is_new : Bool → Bool → Bool
is_new true present = not present
is_new false present = present

unfoldable pub check_changes : (Text → Text) → Documents → List Change → Result (Unit {0})
unfolding has_path differs_by_case
check_changes casefold base [] = ok tt
check_changes casefold base (change ∷ changes) = do
  require (is_new (is_amendment change.kind) (has_path change.path base)) 422
  require (not (differs_by_case casefold change.path base)) 422
  check_changes casefold base changes

-- `previous.get(p) != base.get(p)`
unfoldable pub same_content : Option Text → Option Text → Bool
same_content none none = true
same_content (some a) (some b) = text_eq a b
same_content _ _ = false

-- A path whose document differs between the releases, and which was not reviewed.
unfoldable pub is_conflict : Documents → Documents → List Text → Text → Bool
unfolding content_at same_content has_text
is_conflict previous base reviewed path =
    not (same_content (content_at path previous) (content_at path base))
    && not (has_text reviewed path)

abbrev pub affected : List Status → List Change → List Text
affected old new = map (λ s. s.change.path) old ++ map (λ c. c.path) new

-- The check before a project moves to another release.
unfoldable pub check_upgrade : ProjectState → ProjectUpdate → Documents → Result (Unit {0})
unfolding is_conflict
check_upgrade old body base = elim old.release [
  | none ↦ ok tt
  | some release ↦
      if release.id == body.release_id
      then ok tt
      else require
          (not (
            any (is_conflict release.documents base body.reviewed_paths)
              (affected old.changes body.changes)))
          409
]

unfoldable pub has_id : ℕ → List ℕ → Bool
has_id id [] = false
has_id id (x ∷ xs) = (x == id) || has_id id xs

-- The INSERT, which the primary key may refuse.
unfoldable pub insert_revision : Revision → Store → Result Store
unfolding find_revision
insert_revision row s = elim (find_revision row.project_id row.revision s.revisions) [
  | none ↦ ok (record s { revisions = row ∷ s.revisions })
  | some found ↦ error
]

abbrev pub revision_row : ℕ → ProjectUpdate → Text → Option ℕ → ℕ → ℕ → Revision
revision_row project body actor restored_from now old = record {
  project_id = project;
  revision = suc old;
  release_id = body.release_id;
  changes = body.changes;
  reviewed_paths = body.reviewed_paths;
  reason = body.reason;
  actor = actor;
  restored_from = restored_from;
  created_at = now;
}

module _ (casefold : Text → Text) where
  -- The transaction as far as its INSERT.
  unfoldable pub revise : ℕ → ProjectUpdate → Text → Option ℕ → ℕ → Store → Result Store
  unfolding has_id project_revision read_release check_changes check_upgrade insert_revision
  revise project body actor restored_from now s = do
    require (has_id project s.projects) 404
    old ← project_revision project none now s
    require (old.revision == body.expected_revision) 409
    release ← read_release body.release_id s
    check_changes casefold release.documents body.changes
    check_upgrade old body release.documents
    insert_revision (revision_row project body actor restored_from now old.revision) s

  -- An exception takes the transaction back.
  unfoldable pub commit : Result ProjectState → Store → Store → Result ProjectState × Store
  commit (ok state) s s' = (ok state, s')
  commit (http status) s s' = (http status, s)
  commit error s s' = (error, s)

  unfoldable pub save_revision :
      ℕ → ProjectUpdate → Text → Option ℕ → ℕ → Store → Result ProjectState × Store
  unfolding revise project_revision commit
  save_revision project body actor restored_from now s =
      elim (revise project body actor restored_from now s) [
        | ok s' ↦ commit (project_revision project none now s') s s'
        | http status ↦ (http status, s)
        | error ↦ (error, s)
      ]

  abbrev onboarding_update : Text → ℕ → ProjectUpdate
  onboarding_update reason release_id = record {
    release_id = release_id;
    expected_revision = 0;
    reason = reason;
    changes = [];
    reviewed_paths = [];
  }

  unfoldable pub has_revision : ℕ → List Revision → Bool
  has_revision project [] = false
  has_revision project (r ∷ rs) = (r.project_id == project) || has_revision project rs

  -- What `onboarding` raises, if anything, and the store. `reason` is its fixed reason.
  unfoldable pub onboarding : Text → ℕ → Text → ℕ → Store → Result (Unit {0}) × Store
  unfolding latest_release has_revision save_revision
  onboarding reason project actor now s =
      if has_revision project s.revisions then (ok tt, s) else elim (latest_release s.releases) [
        | none ↦ (http 409, s)
        | some release ↦
            let (saved, s') =
              save_revision project (onboarding_update reason release.id) actor none now s in
            (saved >>= λ _. ok tt, s')
      ]
