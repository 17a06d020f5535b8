-- ===== src/Adc/Revise/Guards.antt =====
-- What `save_revision` refuses: a stale expectation, and a new release whose changed documents nobody reviewed.
use cga.Prelude.{
  ℕ, suc, ◌≡◌, ◌≢◌, refl, sym, ap, ◌∙◌, inl, inr, Bool, true, false, Option, none, some, List, [],
  ◌∷◌, ◌==◌, any, arith, Bool-cases,
}
use cga.Text.{Text, has_text, text_eq, text_eq_sound}
use cga.Http.{ok_eq, ok, http}
use cga.Adc.Documents.{Documents, content_at}
use cga.Adc.Store.{
  Release, Store, read_release, latest_revision, ProjectState, current_state, project_revision,
}
use cga.Adc.Revise.{
  ProjectUpdate, check_upgrade, has_id, revision_row, revise, save_revision, is_conflict, affected,
  same_content,
}
use cga.Adc.Revise.Next.{saved}
use cga.Adc.Revise.History.{new_state, latest_next, state_of_row}

-- An update that expects another number than the project's is refused.
stale :
    (casefold : Text → Text) (project : ℕ) (body : ProjectUpdate) (actor : Text)
    (restored_from : Option ℕ) (now : ℕ) (s : Store) (old : ProjectState)
    → has_id project s.projects ≡ true
    → project_revision project none now s ≡ ok old
    → (old.revision == body.expected_revision) ≡ false
    → save_revision casefold project body actor restored_from now s ≡ (http 409, s)
unfolding save_revision revise
stale casefold project body actor restored_from now s old listed was differs =
    rw (save_revision, revise, listed, was, differs) refl

-- Two authors cannot both replace one revision: after a revision is saved, an update that expects the number
-- that the first one expected is refused with 409, and changes nothing.
pub second_save_refused :
    (casefold : Text → Text) (project : ℕ) (body body' : ProjectUpdate) (actor actor' : Text)
    (restored_from restored_from' : Option ℕ) (now now' : ℕ) (s s' : Store) (state : ProjectState)
    → body'.expected_revision ≡ body.expected_revision
    → save_revision casefold project body actor restored_from now s ≡ (ok state, s')
    → save_revision casefold project body' actor' restored_from' now' s' ≡ (http 409, s')
unfolding project_revision
second_save_refused casefold project body body' actor actor' restored_from restored_from' now now' s
      s' state same h =
    let (r, read) = saved casefold project body actor restored_from now s s' state h in
    let row = revision_row project body actor restored_from now r.old.revision in
    let s₁ : Store = record s { revisions = row ∷ s.revisions } in
    let latest : latest_revision project (row ∷ s.revisions) ≡ some row =
      latest_next project now row s r.old refl r.was refl in
    let seen : project_revision project none now' s'
        ≡ ok (new_state r.old.revision body r.release now') =
      ap (project_revision project none now') r.same
      ∙ ap (λ o. current_state o now' s₁) latest
      ∙ state_of_row row now' s₁ r.release r.is_release in
    let listed : has_id project s'.projects ≡ true =
      ap (λ q. has_id project q.projects) r.same ∙ r.is_project in
    stale casefold project body' actor' restored_from' now' s'
      (new_state r.old.revision body r.release now') listed seen
      (later_number r.old.revision body'.expected_revision (r.expected ∙ sym same))
  where
    later_number : (a b : ℕ) → a ≡ b → (suc a == b) ≡ false
    later_number a b e = ground arith

-- A member of a list that no test finds does not pass the test.
any-none :
    (p : Text → Bool) (path : Text) (ts : List Text)
    → any p ts ≡ false
    → has_text ts path ≡ true
    → p path ≡ false
unfolding any has_text
any-none p path [] h m = ground arith
any-none p path (t ∷ ts) h m = elim (Bool-cases (text_eq t path)) [
  | inl e ↦ ap p (sym (text_eq_sound t path e)) ∙ ground arith
  | inr e ↦ any-none p path ts (ground arith) (ground arith)
]

passed_upgrade :
    (old : ProjectState) (body : ProjectUpdate) (previous : Release) (base : Documents)
    → old.release ≡ some previous
    → previous.id ≢ body.release_id
    → check_upgrade old body base ≡ ok tt
    → any
        (is_conflict previous.documents base body.reviewed_paths)
        (affected old.changes body.changes)
      ≡ false
unfolding check_upgrade
passed_upgrade old body previous base held other passed =
    elim (Bool-cases (
      any (is_conflict previous.documents base body.reviewed_paths)
        (affected old.changes body.changes))) [
          | inl found ↦ ground arith
          | inr none_found ↦ none_found
        ]

no_conflict :
    (previous base : Documents) (reviewed : List Text) (path : Text)
    → is_conflict previous base reviewed path ≡ false
    → same_content (content_at path previous) (content_at path base) ≡ false
    → has_text reviewed path ≡ true
unfolding is_conflict
no_conflict previous base reviewed path h differs = ground arith

-- A project never moves to another release without review: when a revision of another release is saved, each document that a
-- change of the old or of the new revision concerns, and that differs between the two releases, is among the reviewed paths.
pub upgrade_reviewed :
    (casefold : Text → Text) (project : ℕ) (body : ProjectUpdate) (actor : Text)
    (restored_from : Option ℕ) (now : ℕ) (s s' : Store) (state old : ProjectState)
    (previous release : Release) (path : Text)
    → save_revision casefold project body actor restored_from now s ≡ (ok state, s')
    → project_revision project none now s ≡ ok old
    → old.release ≡ some previous
    → previous.id ≢ body.release_id
    → read_release body.release_id s ≡ ok release
    → has_text (affected old.changes body.changes) path ≡ true
    → same_content (content_at path previous.documents) (content_at path release.documents) ≡ false
    → has_text body.reviewed_paths path ≡ true
upgrade_reviewed casefold project body actor restored_from now s s' state old previous release path
      h was held other read member differs =
    let (r, again) = saved casefold project body actor restored_from now s s' state h in
    let same_old : r.old ≡ old = ok_eq _ _ (sym r.was ∙ was) in
    let same_release : r.release ≡ release = ok_eq _ _ (sym r.is_release ∙ read) in
    let passed : check_upgrade old body release.documents ≡ ok tt =
      ap (λ o. check_upgrade o body release.documents) (sym same_old)
      ∙ ap (λ q. check_upgrade r.old body q.documents) (sym same_release)
      ∙ r.upgrade_checked in
    no_conflict previous.documents release.documents body.reviewed_paths path
      (any-none _ path _ (passed_upgrade old body previous release.documents held other passed)
        member)
      differs
