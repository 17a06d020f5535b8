-- ===== src/Adc/Releases.antt =====
-- `publish` on the table of releases.
use cga.Prelude.{
  ℕ, suc, ◌≡◌, ◌<◌, refl, ap, ◌∙◌, subst, inl, inr, true, false, some, List, [], ◌∷◌, ◌==◌, arith,
  Bool-cases, ==-refl, All,
}
use cga.Text.{Text}
use cga.Http.{ok_eq, Result, ok, http}
use cga.Adc.Documents.{Documents}
use cga.Adc.Store.{
  Version, Release, ReleaseCreate, Store, is_version, has_version, release_row, publish,
  find_release,
}

-- The sequence of the releases' IDs is ahead of them all.
abbrev pub IsFresh : Store → Type 0
IsFresh s = All (λ r. r.id < s.next_id) s.releases

fresh_more : (n : ℕ) (rs : List Release) → All (λ r. r.id < n) rs → All (λ r. r.id < suc n) rs
fresh_more n [] a = tt
fresh_more n (r ∷ rs) (h, a) = (omega (arith, h), fresh_more n rs a)

found_below :
    (n id : ℕ) (rs : List Release) (r : Release)
    → All (λ q. q.id < n) rs
    → find_release id rs ≡ some r
    → id < n
unfolding find_release
found_below n id [] r a h = ground arith
found_below n id (q ∷ rs) r (b, a) h = elim (Bool-cases (q.id == id)) [
  | inl e ↦ ground arith
  | inr e ↦ found_below n id rs r a (ground arith)
]

is_version_refl : (v : Version) → is_version v v ≡ true
is_version_refl v = ground (arith, ==-refl v.major, ==-refl v.minor, ==-refl v.patch)

-- No version stands twice.
abbrev pub IsUnique : List Release → Type 0
IsUnique [] = Unit
IsUnique (r ∷ rs) = (has_version r.version rs ≡ false) × IsUnique rs

-- What a call that returned `r` leaves: the release under its ID, and a second publication of its version is a
-- conflict, whatever it would publish, which adds no release.
abbrev pub IsPublished : (Documents → Text) → Store → Release → Type 0
IsPublished digest s r =
    (find_release r.id s.releases ≡ some r)
    × ((again : ReleaseCreate) (actor : Text) (now : ℕ)
        → again.version ≡ r.version
        → ((publish digest again actor now s).0 ≡ http 409)
          × ((publish digest again actor now s).1.releases ≡ s.releases))

published_again :
    (digest : Documents → Text) (again : ReleaseCreate) (actor : Text) (now : ℕ) (s : Store)
    (v : Version)
    → has_version v s.releases ≡ true
    → again.version ≡ v
    → ((publish digest again actor now s).0 ≡ http 409)
      × ((publish digest again actor now s).1.releases ≡ s.releases)
unfolding publish
published_again digest again actor now s v stands e =
    let stands' : has_version again.version s.releases ≡ true =
      ap (λ w. has_version w s.releases) e ∙ stands in
    rw (publish, stands') (refl, refl)

-- When the sequence is ahead of all releases and no version stands twice: a call of `publish`, whatever it returns,
-- leaves every release under its ID as it was, the sequence ahead of them and no version twice; and when it returned a
-- release, that release has the published version and is read back under its ID, and to publish its version again,
-- with any documents, is a conflict that adds no release.
pub publish_lem :
    (digest : Documents → Text) (body : ReleaseCreate) (actor : Text) (now : ℕ) (s : Store)
    → IsFresh s
    → IsUnique s.releases
    → IsFresh (publish digest body actor now s).1
      × IsUnique (publish digest body actor now s).1.releases
      × ((id : ℕ) (r : Release)
          → find_release id s.releases ≡ some r
          → find_release id (publish digest body actor now s).1.releases ≡ some r)
      × ((r : Release)
          → (publish digest body actor now s).0 ≡ ok r
          → (r.version ≡ body.version) × IsPublished digest (publish digest body actor now s).1 r)
unfolding publish find_release has_version
publish_lem digest body actor now s fresh unique =
    elim (Bool-cases (has_version body.version s.releases)) [
      | inl stands ↦
          rw (publish, stands)
            (
              fresh_more s.next_id s.releases fresh,
              unique,
              λ id r h. h,
              λ r h. absurd (refused r h),
            )
      | inr free ↦
          rw (publish, free)
            (
              (omega arith, fresh_more s.next_id s.releases fresh),
              (free, unique),
              λ id r h. kept (found_below s.next_id id s.releases r fresh h) h,
              λ r h.
                  subst (λ q. (q.version ≡ body.version) × IsPublished digest after q)
                    (ok_eq row r h) (refl, new),
            )
    ]
  where
    refused : (r : Release) → ◌≡◌ {A = Result Release} (http 409) (ok r) → ⊥
    refused r h = cc

    row : Release
    row = release_row digest body actor now s.next_id

    after : Store
    after = record s { releases = row ∷ s.releases; next_id = suc s.next_id }

    kept :
        {id : ℕ} {r : Release}
        → id < s.next_id
        → find_release id s.releases ≡ some r
        → find_release id (row ∷ s.releases) ≡ some r
    kept lt h = ground arith

    stands : has_version body.version (row ∷ s.releases) ≡ true
    stands = rw (is_version_refl body.version) refl

    new : IsPublished digest after row
    new = (
      ground (arith, ==-refl s.next_id),
      λ again by at e. published_again digest again by at after body.version stands e,
    )
