-- ===== src/Adc/Documents.antt =====
-- The Python dict from document paths to contents, in its order, and the changes that a project makes.
use cga.Prelude.{ℕ, Bool, true, false, Option, none, some, List, [], ◌∷◌, ltb, if◌then◌else◌}
use cga.Text.{Text, text_eq}

-- `None` among the contents is `none`.
pub record Document : Type 0 where
  pub path : Text
  pub content : Option Text

abbrev pub Documents : Type 0
Documents = List Document

-- `documents.get(path)`
unfoldable pub content_at : Text → Documents → Option Text
content_at path [] = none
content_at path (d ∷ ds) = if text_eq d.path path then d.content else content_at path ds

-- `path in documents`
unfoldable pub has_path : Text → Documents → Bool
has_path path [] = false
has_path path (d ∷ ds) = if text_eq d.path path then true else has_path path ds

-- `documents[path] = content`
unfoldable pub set_content : Text → Option Text → Documents → Documents
set_content path content [] = record { path = path; content = content } ∷ []
set_content path content (d ∷ ds) =
    let rest = set_content path content ds in
    if text_eq d.path path then record d { content = content } ∷ ds else d ∷ rest

-- `documents.pop(path, None)`: the paths of a dict are distinct, so that all its items with the path are one.
unfoldable pub pop_path : Text → Documents → Documents
pop_path path [] = []
pop_path path (d ∷ ds) =
    let rest = pop_path path ds in if text_eq d.path path then rest else d ∷ rest

pub data Kind : Type 0 where
  amendment : Kind
  override : Kind
  exemption : Kind

-- `expires_at` is an instant on the clock's scale.
pub record Change : Type 0 where
  pub path : Text
  pub kind : Kind
  pub content : Option Text
  pub reason : Text
  pub expires_at : Option ℕ

-- `not change.expires_at or change.expires_at > now`
abbrev expires_after : Option ℕ → ℕ → Bool
expires_after none now = true
expires_after (some t) now = ltb now t

unfoldable pub is_active : ℕ → Change → Bool
is_active now change = expires_after change.expires_at now

abbrev pub apply_kind : Kind → Text → Option Text → Documents → Documents
apply_kind exemption path content result = pop_path path result
apply_kind amendment path content result = set_content path content result
apply_kind override path content result = set_content path content result

-- The body of the loop of `effective`.
unfoldable pub apply_change : ℕ → Documents → Change → Documents
unfolding is_active set_content pop_path
apply_change now result change =
    if is_active now change
    then apply_kind change.kind change.path change.content result
    else result

unfoldable pub apply_changes : ℕ → Documents → List Change → Documents
unfolding apply_change
apply_changes now result [] = result
apply_changes now result (change ∷ changes) =
    apply_changes now (apply_change now result change) changes

pub record Status : Type 0 where
  pub change : Change
  pub active : Bool

unfoldable pub statuses : ℕ → List Change → List Status
unfolding is_active
statuses now [] = []
statuses now (change ∷ changes) =
    record { change = change; active = is_active now change } ∷ statuses now changes

unfoldable pub effective : Documents → List Change → ℕ → Documents × List Status
unfolding apply_changes statuses
effective documents changes now = (apply_changes now documents changes, statuses now changes)
