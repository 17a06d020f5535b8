-- ===== src/Adc/Store.antt =====
-- The tables `adc_releases` and `adc_project_revisions`, and the operations that read and extend them.
-- The columns of JSON hold their meaning; a version is its three numbers, which its pattern determines.
use cga.Prelude.{
  ℕ, suc, Bool, false, ◌&&◌, ◌||◌, Option, none, some, List, [], ◌∷◌, ◌==◌, ltb, if◌then◌else◌,
}
use cga.Text.{Text}
use cga.Http.{Result, ok, http, ◌>>=◌}
use cga.Adc.Documents.{Documents, Change, Status, effective}

pub record Version : Type 0 where
  pub major : ℕ
  pub minor : ℕ
  pub patch : ℕ

pub record ReleaseCreate : Type 0 where
  pub version : Version
  pub documents : Documents
  pub reason : Text
  pub source : Text

pub record Release : Type 0 where
  pub id : ℕ
  pub version : Version
  pub documents : Documents
  pub sha256 : Text
  pub reason : Text
  pub source : Text
  pub actor : Text
  pub created_at : ℕ

pub record Revision : Type 0 where
  pub project_id : ℕ
  pub revision : ℕ
  pub release_id : ℕ
  pub changes : List Change
  pub reviewed_paths : List Text
  pub reason : Text
  pub actor : Text
  pub restored_from : Option ℕ
  pub created_at : ℕ

-- The rows, the newest first, the next value of the releases' sequence, and the IDs of the active projects.
pub record Store : Type 0 where
  pub releases : List Release
  pub next_id : ℕ
  pub revisions : List Revision
  pub projects : List ℕ

abbrev pub is_version : Version → Version → Bool
is_version v w = (v.major == w.major) && ((v.minor == w.minor) && (v.patch == w.patch))

unfoldable pub has_version : Version → List Release → Bool
has_version v [] = false
has_version v (r ∷ rs) = is_version r.version v || has_version v rs

abbrev pub release_row : (Documents → Text) → ReleaseCreate → Text → ℕ → ℕ → Release
release_row digest body actor now id = record {
  id = id;
  version = body.version;
  documents = body.documents;
  sha256 = digest body.documents;
  reason = body.reason;
  source = body.source;
  actor = actor;
  created_at = now;
}

-- `publish`: the release, or the conflict with a version that stands; the sequence moves on in both cases.
-- `digest` is the SHA-256 of the canonical JSON of the documents.
unfoldable pub publish :
    (Documents → Text) → ReleaseCreate → Text → ℕ → Store → Result Release × Store
unfolding has_version
publish digest body actor now s =
    if has_version body.version s.releases
    then (http 409, record s { next_id = suc s.next_id })
    else (
      ok (release_row digest body actor now s.next_id),
      record s {
        releases = release_row digest body actor now s.next_id ∷ s.releases;
        next_id = suc s.next_id;
      },
    )

-- `SELECT * FROM adc_releases WHERE id=$1`
unfoldable pub find_release : ℕ → List Release → Option Release
find_release id [] = none
find_release id (r ∷ rs) = if r.id == id then some r else find_release id rs

abbrev pub or_404 {ℓ} : {A : Type ℓ} → Option A → Result A
or_404 none = http 404
or_404 (some a) = ok a

unfoldable pub read_release : ℕ → Store → Result Release
unfolding find_release
read_release id s = or_404 (find_release id s.releases)

-- `(major, minor, patch)` in the order of the three columns.
unfoldable pub is_older : Version → Version → Bool
is_older v w =
    ltb v.major w.major
    || ((v.major == w.major)
        && (ltb v.minor w.minor || ((v.minor == w.minor) && ltb v.patch w.patch)))

-- `ORDER BY major DESC,minor DESC,patch DESC LIMIT 1`
abbrev newer : Release → Option Release → Option Release
newer r none = some r
newer r (some best) = if is_older r.version best.version then some best else some r

unfoldable pub latest_release : List Release → Option Release
unfolding is_older
latest_release [] = none
latest_release (r ∷ rs) = newer r (latest_release rs)

-- `WHERE project_id=$1 AND revision=$2`
unfoldable pub find_revision : ℕ → ℕ → List Revision → Option Revision
find_revision project n [] = none
find_revision project n (r ∷ rs) =
    if (r.project_id == project) && (r.revision == n) then some r else find_revision project n rs

-- `WHERE project_id=$1 ORDER BY revision DESC LIMIT 1`
abbrev pub later : Revision → Option Revision → Option Revision
later r none = some r
later r (some best) = if ltb r.revision best.revision then some best else some r

unfoldable pub latest_revision : ℕ → List Revision → Option Revision
latest_revision project [] = none
latest_revision project (r ∷ rs) =
    let best = latest_revision project rs in if r.project_id == project then later r best else best

-- What `project_revision` returns, less the columns that it copies from the row and the digest of the documents:
-- revision 0 has no release, no changes and no documents.
pub record ProjectState : Type 0 where
  pub revision : ℕ
  pub release : Option Release
  pub changes : List Status
  pub documents : Documents
  pub reviewed_paths : List Text
  pub evaluated_at : Option ℕ

abbrev pub no_revision : ProjectState
no_revision = record {
  revision = 0;
  release = none;
  changes = [];
  documents = [];
  reviewed_paths = [];
  evaluated_at = none;
}

unfoldable pub state_of : Revision → ℕ → Store → Result ProjectState
unfolding read_release effective
state_of row at s = do
  release ← read_release row.release_id s
  ok (record {
    revision = row.revision;
    release = some release;
    changes = (effective release.documents row.changes at).1;
    documents = (effective release.documents row.changes at).0;
    reviewed_paths = row.reviewed_paths;
    evaluated_at = some at;
  })

abbrev pub current_state : Option Revision → ℕ → Store → Result ProjectState
current_state none now s = ok no_revision
current_state (some row) now s = state_of row now s

abbrev pub past_state : Option Revision → Store → Result ProjectState
past_state none s = http 404
past_state (some row) s = state_of row row.created_at s

-- A past revision is evaluated at the instant of its creation, the current one now.
unfoldable pub project_revision : ℕ → Option ℕ → ℕ → Store → Result ProjectState
unfolding state_of latest_revision find_revision
project_revision project none now s = current_state (latest_revision project s.revisions) now s
project_revision project (some n) now s = past_state (find_revision project n s.revisions) s
