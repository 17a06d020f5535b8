-- ===== src/Tests/Adc.antt =====
-- Two releases, and a project that amends the first one and moves to the second.
use cga.Prelude.{ℕ, ◌≡◌, ◌≢◌, refl, true, false, none, some, [], ◌∷◌, arith, any}
use cga.Text.{Text, text_eq, has_text}
use cga.Http.{ok, http}
use cga.Adc.Documents.{
  Documents, amendment, override, Change, content_at, has_path, set_content, pop_path, is_active,
  apply_change, apply_changes, statuses, effective,
}
use cga.Adc.Store.{
  ReleaseCreate, Release, Store, has_version, publish, find_release, read_release, find_revision,
  latest_revision, ProjectState, state_of, project_revision,
}
use cga.Adc.Releases.{IsFresh, IsUnique, IsPublished, publish_lem}
use cga.Adc.Effective.{effective_lem, decide}
use cga.Adc.Revise.{
  ProjectUpdate, differs_by_case, check_changes, same_content, is_conflict, affected, check_upgrade,
  has_id, insert_revision, revision_row, revise, commit, save_revision,
}
use cga.Adc.Revise.History.{new_state, save_revision_lem}
use cga.Adc.Revise.Guards.{second_save_refused, upgrade_reviewed}
use cga.Adc.Revise.Numbers.{IsStore, count, save_revision-IsStore, project_revision_all}

abbrev rules : Text
rules = b'r' ∷ []

abbrev guide : Text
guide = b'g' ∷ []

abbrev text_1 : Text
text_1 = b'1' ∷ []

abbrev text_2 : Text
text_2 = b'2' ∷ []

abbrev release_1 : ReleaseCreate
release_1 = record {
  version = record { major = 1; minor = 0; patch = 0 };
  documents = record { path = rules; content = some text_1 } ∷ [];
  reason = [];
  source = [];
}

abbrev release_2 : ReleaseCreate
release_2 = record {
  version = record { major = 1; minor = 1; patch = 0 };
  documents = record { path = rules; content = some text_2 } ∷ [];
  reason = [];
  source = [];
}

abbrev digest : Documents → Text
digest ds = []

abbrev casefold : Text → Text
casefold t = t

abbrev empty_store : Store
empty_store = record { releases = []; next_id = 1; revisions = []; projects = 7 ∷ [] }

abbrev first_store : Store
first_store = (publish digest release_1 [] 100 empty_store).1

abbrev second_store : Store
second_store = (publish digest release_2 [] 200 first_store).1

-- The project replaces the rules and adds a guide.
abbrev override_rules : Change
override_rules = record {
  path = rules;
  kind = override;
  content = some guide;
  reason = [];
  expires_at = none;
}

abbrev add_guide : Change
add_guide = record {
  path = guide;
  kind = amendment;
  content = some guide;
  reason = [];
  expires_at = none;
}

abbrev first_update : ProjectUpdate
first_update = record {
  release_id = 1;
  expected_revision = 0;
  reason = [];
  changes = override_rules ∷ add_guide ∷ [];
  reviewed_paths = [];
}

-- The upgrade to the second release, with the rules reviewed.
abbrev second_update : ProjectUpdate
second_update = record {
  release_id = 2;
  expected_revision = 1;
  reason = [];
  changes = override_rules ∷ [];
  reviewed_paths = rules ∷ [];
}

abbrev revised_store : Store
revised_store = (save_revision casefold 7 first_update [] none 300 second_store).1

abbrev upgraded_store : Store
upgraded_store = (save_revision casefold 7 second_update [] none 400 revised_store).1

opened : Unit {0}
unfolding publish has_version find_release read_release find_revision latest_revision state_of
    project_revision effective apply_changes apply_change statuses is_active set_content pop_path
    content_at has_path differs_by_case check_changes same_content is_conflict check_upgrade has_id
    insert_revision revise commit save_revision any text_eq has_text count decide
opened = tt

abbrev release_row_1 : Release
release_row_1 = record {
  id = 1;
  version = release_1.version;
  documents = release_1.documents;
  sha256 = [];
  reason = [];
  source = [];
  actor = [];
  created_at = 100;
}

abbrev release_row_2 : Release
release_row_2 = record {
  id = 2;
  version = release_2.version;
  documents = release_2.documents;
  sha256 = [];
  reason = [];
  source = [];
  actor = [];
  created_at = 200;
}

first_ok :
    save_revision casefold 7 first_update [] none 300 second_store
    ≡ (ok (new_state 0 first_update release_row_1 300), revised_store)
unfolding opened
first_ok = refl

second_ok :
    save_revision casefold 7 second_update [] none 400 revised_store
    ≡ (ok (new_state 1 second_update release_row_2 400), upgraded_store)
unfolding opened
second_ok = refl

was_ok : project_revision 7 none 400 revised_store ≡ ok (new_state 0 first_update release_row_1 400)
unfolding opened
was_ok = refl

read_ok : read_release 2 revised_store ≡ ok release_row_2
unfolding opened
read_ok = refl

concerned :
    has_text
      (affected (new_state 0 first_update release_row_1 400).changes second_update.changes)
      rules
    ≡ true
unfolding opened
concerned = refl

differs :
    same_content
      (content_at rules release_row_1.documents)
      (content_at rules release_row_2.documents)
    ≡ false
unfolding opened
differs = refl

other_release : release_row_1.id ≢ second_update.release_id
other_release = omega arith

revised_IsStore : IsStore revised_store
unfolding opened
revised_IsStore = record { numbered = (refl, tt); released = ((release_row_1, refl), tt) }

two_revisions : count 7 upgraded_store.revisions ≡ 2
unfolding opened
two_revisions = refl

first_store-IsFresh : IsFresh first_store
first_store-IsFresh = (publish_lem digest release_1 [] 100 empty_store tt tt).0

first_store-IsUnique : IsUnique first_store.releases
first_store-IsUnique = (publish_lem digest release_1 [] 100 empty_store tt tt).1

publish_lem_example :
    IsFresh second_store
    × IsUnique second_store.releases
    × ((id : ℕ) (r : Release)
        → find_release id first_store.releases ≡ some r
        → find_release id second_store.releases ≡ some r)
    × ((r : Release)
        → (publish digest release_2 [] 200 first_store).0 ≡ ok r
        → (r.version ≡ release_2.version) × IsPublished digest second_store r)
publish_lem_example =
    publish_lem digest release_2 [] 200 first_store first_store-IsFresh first_store-IsUnique

effective_lem_example :
    (content_at rules (effective release_1.documents first_update.changes 300).0
      ≡ decide 300 rules first_update.changes (content_at rules release_1.documents))
    × ((effective release_1.documents first_update.changes 300).1
        ≡ record { change = override_rules; active = is_active 300 override_rules }
          ∷ record { change = add_guide; active = is_active 300 add_guide }
          ∷ [])
effective_lem_example = effective_lem release_1.documents first_update.changes 300 rules

save_revision_lem_example :
    (release : Release) × (read_release 1 second_store ≡ ok release)
    × (new_state 0 first_update release_row_1 300 ≡ new_state 0 first_update release 300)
    × (revised_store ≡ record second_store {
      revisions = revision_row 7 first_update [] none 300 0 ∷ second_store.revisions;
    })
save_revision_lem_example =
    save_revision_lem casefold 7 first_update [] none 300 second_store revised_store _ first_ok

second_save_refused_example :
    save_revision casefold 7 first_update [] none 400 revised_store ≡ (http 409, revised_store)
second_save_refused_example =
    second_save_refused casefold 7 first_update first_update [] [] none none 300 400 second_store
      revised_store _ refl first_ok

upgrade_reviewed_example : has_text second_update.reviewed_paths rules ≡ true
upgrade_reviewed_example =
    upgrade_reviewed casefold 7 second_update [] none 400 revised_store upgraded_store _
      (new_state 0 first_update release_row_1 400) release_row_1 release_row_2 rules second_ok
      was_ok refl other_release read_ok concerned differs

save_revision-IsStore_example : IsStore upgraded_store
save_revision-IsStore_example =
    save_revision-IsStore casefold 7 second_update [] none 400 revised_store revised_IsStore

project_revision_all_example :
    (state : ProjectState) × (project_revision 7 (some 1) 500 upgraded_store ≡ ok state)
    × (state.revision ≡ 1)
project_revision_all_example =
    project_revision_all 7 1 500 upgraded_store save_revision-IsStore_example (omega arith)
      (omega (arith, two_revisions))
