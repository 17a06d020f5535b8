-- ===== src/Http.antt =====
-- Results of the HTTP handlers: a value, an HTTPException with its status, or another exception.
use cga.Prelude.{ℕ, ◌≡◌, refl, Bool, true, false, ◌⊎◌, inl, inr}

pub data Result {ℓ} (A : Type ℓ) : Type ℓ where
  ok : A → Result A
  http : ℕ → Result A
  error : Result A

module _ {ℓ κ} {A : Type ℓ} {B : Type κ} where
  infixl 5 ◌>>=◌
  -- The code after a call that may raise.
  abbrev pub ◌>>=◌ : Result A → (A → Result B) → Result B
  ok value >>= rest = rest value
  http status >>= rest = http status
  error >>= rest = error

  -- What a chain returned, each of its parts returned.
  pub >>=-eq-ok :
      (call : Result A) (rest : A → Result B) {returned : B}
      → (call >>= rest) ≡ ok returned
      → (value : A) × (call ≡ ok value) × (rest value ≡ ok returned)
  >>=-eq-ok (ok value) rest e = (value, refl, e)
  >>=-eq-ok (http status) rest e = cc
  >>=-eq-ok error rest e = cc

infixl 5 ◌>>◌
abbrev pub ◌>>◌ {ℓ} : {B : Type ℓ} → Result (Unit {0}) → Result B → Result B
check >> rest = check >>= λ _. rest

-- `if not test: raise HTTPException(status)`
abbrev pub require : Bool → ℕ → Result (Unit {0})
require true status = ok tt
require false status = http status

pub require-eq-ok : (b : Bool) (s : ℕ) {u : Unit {0}} → require b s ≡ ok u → b ≡ true
require-eq-ok true s h = refl
require-eq-ok false s h = cc

pub Result-cases {ℓ} :
    {A : Type ℓ} (r : Result A) → ((a : A) × (r ≡ ok a)) ⊎ ((s : ℕ) × (r ≡ http s)) ⊎ (r ≡ error)
Result-cases (ok a) = inl (a, refl)
Result-cases (http s) = inr (inl (s, refl))
Result-cases error = inr (inr refl)

pub ok_eq {ℓ} : {A : Type ℓ} (a b : A) → ok a ≡ ok b → a ≡ b
ok_eq a b e = cc
