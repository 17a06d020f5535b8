-- ===== src/Adc/Revise/Numbers.antt =====
-- The invariant of the history: a project's revisions are numbered from 1 without a gap, and each has its release.
use cga.Prelude.{
  ℕ, suc, ◌≡◌, ◌≤◌, refl, sym, ap, ◌∙◌, subst, ◌⊎◌, inl, inr, false, ◌&&◌, Option, none, some, List,
  [], ◌∷◌, ◌==◌, arith, Bool-cases, ==-eq, if◌then◌else◌, All,
}
use cga.Text.{Text}
use cga.Http.{ok, Result-cases}
use cga.Adc.Store.{
  Release, Revision, Store, or_404, find_release, read_release, find_revision, later,
  latest_revision, ProjectState, current_state, past_state, project_revision,
}
use cga.Adc.Revise.{ProjectUpdate, revise, commit, save_revision}
use cga.Adc.Revise.Next.{IsRevised, revise-IsRevised}
use cga.Adc.Revise.History.{state_number, state_of_row}

-- How many revisions a project has.
unfoldable pub count : ℕ → List Revision → ℕ
count project [] = 0
count project (r ∷ rs) = let n = count project rs in if r.project_id == project then suc n else n

abbrev pub IsNumbered : List Revision → Type 0
IsNumbered [] = Unit
IsNumbered (r ∷ rs) = (r.revision ≡ suc (count r.project_id rs)) × IsNumbered rs

abbrev pub HasRelease : List Release → Revision → Type 0
HasRelease releases r = (release : Release) × (find_release r.release_id releases ≡ some release)

pub record IsStore (s : Store) : Type 0 where
  pub numbered : IsNumbered s.revisions
  pub released : All (HasRelease s.releases) s.revisions

abbrev number : Option Revision → ℕ
number none = 0
number (some r) = r.revision

number-later :
    (r : Revision) (o : Option Revision)
    → r.revision ≡ suc (number o)
    → number (later r o) ≡ r.revision
number-later r none e = refl
number-later r (some best) e = ground arith

latest-count :
    (project : ℕ) (rs : List Revision)
    → IsNumbered rs
    → number (latest_revision project rs) ≡ count project rs
unfolding latest_revision count
latest-count project [] n = refl
latest-count project (r ∷ rs) (e, n) = elim (Bool-cases (r.project_id == project)) [
  | inl own ↦
      let same : r.revision ≡ suc (count project rs) =
        e ∙ ap (λ p. suc (count p rs)) (==-eq r.project_id project own) in
      let top : number (later r (latest_revision project rs)) ≡ r.revision =
        number-later r _ (same ∙ ap suc (sym (latest-count project rs n))) in
      rw (own) (top ∙ same)
  | inr other ↦ rw (other) (latest-count project rs n)
]

-- The number of the current state is the number of revisions.
old-count :
    (project now : ℕ) (s : Store) (old : ProjectState)
    → IsStore s
    → project_revision project none now s ≡ ok old
    → old.revision ≡ count project s.revisions
unfolding project_revision
old-count project now s old w h =
    number_of (latest_revision project s.revisions) h ∙ latest-count project s.revisions w.numbered
  where
    number_of : (o : Option Revision) → current_state o now s ≡ ok old → old.revision ≡ number o
    number_of none e = ground arith
    number_of (some row) e = state_number row now s old e

or_404-some : {A : Type 0} (o : Option A) (a : A) → or_404 o ≡ ok a → o ≡ some a
or_404-some none a h = cc
or_404-some (some b) a h = cc

module _ (casefold : Text → Text) (project : ℕ) (body : ProjectUpdate) (actor : Text)
    (restored_from : Option ℕ) (now : ℕ) where
  revised-IsStore :
      (s s' : Store)
      → IsRevised casefold project body actor restored_from now s s'
      → IsStore s
      → IsStore s'
  unfolding read_release
  revised-IsStore s s' r w = subst IsStore (sym r.same) (record {
    numbered = (ap suc (old-count project now s r.old w r.was), w.numbered);
    released = ((r.release, or_404-some _ _ r.is_release), w.released);
  })

  save_cases :
      (s : Store)
      → ((save_revision casefold project body actor restored_from now s).1 ≡ s)
        ⊎ IsRevised casefold project body actor restored_from now s
            (save_revision casefold project body actor restored_from now s).1
  unfolding save_revision commit
  save_cases s = elim (Result-cases (revise casefold project body actor restored_from now s)) [
    | inl (s₁, e) ↦ elim (Result-cases (project_revision project none now s₁)) [
      | inl (state, f) ↦ inr (
          subst (IsRevised casefold project body actor restored_from now s) (ground arith)
            (revise-IsRevised casefold project body actor restored_from now s s₁ e))
      | inr (inl (status, f)) ↦ inl (ground arith)
      | inr (inr f) ↦ inl (ground arith)
    ]
    | inr (inl (status, e)) ↦ inl (ground arith)
    | inr (inr e) ↦ inl (ground arith)
  ]

  -- Whatever `save_revision` returns, the projects' revisions stay numbered from 1 without a gap,
  -- and each keeps a release that exists, if this was so before.
  pub save_revision-IsStore :
      (s : Store)
      → IsStore s
      → IsStore (save_revision casefold project body actor restored_from now s).1
  save_revision-IsStore s w = elim (save_cases s) [
    | inl same ↦ subst IsStore (sym same) w
    | inr r ↦ revised-IsStore s _ r w
  ]

below_rest :
    (project n : ℕ) (r : Revision) (rs : List Revision)
    → r.revision ≡ suc (count r.project_id rs)
    → n ≤ count project (r ∷ rs)
    → ((r.project_id == project) && (r.revision == n)) ≡ false
    → n ≤ count project rs
unfolding count
below_rest project n r rs e hi not_here = elim (Bool-cases (r.project_id == project)) [
  | inl own ↦ ground (arith, ap (λ p. count p rs) (==-eq r.project_id project own))
  | inr other ↦ ground arith
]

-- The row with a number, of the project, and with its release.
find_numbered :
    (project n : ℕ) (releases : List Release) (rs : List Revision)
    → IsNumbered rs
    → All (HasRelease releases) rs
    → 1 ≤ n
    → n ≤ count project rs
    → (row : Revision) × (find_revision project n rs ≡ some row)
      × (row.revision ≡ n)
      × HasRelease releases row
unfolding find_revision count
find_numbered project n releases [] num rel lo hi = ground arith
find_numbered project n releases (r ∷ rs) (e, num) (has, rel) lo hi =
    elim (Bool-cases ((r.project_id == project) && (r.revision == n))) [
      | inl here ↦ (r, ground arith, ground arith, has)
      | inr not_here ↦
          let below : n ≤ count project rs = below_rest project n r rs e hi not_here in
          let (row, found, same, release) = find_numbered project n releases rs num rel lo below in
          (row, rw (not_here) found, same, release)
    ]

-- When revisions are numbered from 1 without a gap and have their releases, every revision up to
-- the number of a project's revisions can be read back, and reads as the revision of that number.
pub project_revision_all :
    (project n now : ℕ) (s : Store)
    → IsStore s
    → 1 ≤ n
    → n ≤ count project s.revisions
    → (state : ProjectState) × (project_revision project (some n) now s ≡ ok state)
      × (state.revision ≡ n)
unfolding project_revision read_release
project_revision_all project n now s w lo hi =
    let (row, found, same, held) =
      find_numbered project n s.releases s.revisions w.numbered w.released lo hi in
    let (release, e) = held in
    let read = state_of_row row row.created_at s release (ap or_404 e) in
    (_, ap (λ o. past_state o s) found ∙ read, same)
