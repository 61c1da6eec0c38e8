-- ===== src/Api/Handler.antt =====
-- A handler of src/api/route.rs: it reads and changes the world, and returns a value or an
-- `ApiError`.
use chain_data_service.Base.{Bool, true, false, Result, ok, err, map_err, ◌≡◌, refl}
use chain_data_service.Validation.{ValidationError}
use chain_data_service.Db.Exec.{World, Exec}
use chain_data_service.Api.Error.{ApiError, database, of_validation}

abbrev pub Handler : Type 0 → Type 0 → Type 0 → Type 0
Handler F S A = World F S → Result A ApiError × World F S

module _ {F S A B : Type 0} where
  unfoldable pub continue : Result A ApiError → (A → Handler F S B) → Handler F S B
  continue (ok a) f w = f a w
  continue (err e) f w = (err e, w)

  infixl 5 ◌>>=◌ ◌>>◌
  unfoldable pub ◌>>=◌ : Handler F S A → (A → Handler F S B) → Handler F S B
  unfolding continue
  ◌>>=◌ m f w = let (r, w') = m w in continue r f w'

  abbrev pub ◌>>◌ : Handler F S A → Handler F S B → Handler F S B
  m >> k = m >>= λ _. k

module _ {F S A : Type 0} where
  unfoldable pub pure : A → Handler F S A
  pure a w = (ok a, w)

  -- `return Err(e)`
  unfoldable pub fail : ApiError → Handler F S A
  fail e w = (err e, w)

  -- `?` on a result.
  unfoldable pub of_result : Result A ApiError → Handler F S A
  of_result r w = (r, w)

  -- `?` on a check, by `From<ValidationError>`.
  abbrev pub check : Result A ValidationError → Handler F S A
  check r = of_result (map_err of_validation r)

  -- `?` on a database call, by `From<sqlx::Error>`.
  unfoldable pub query : Exec F S A → Handler F S A
  query m w = let (r, w') = m w in (map_err database r, w')

-- `if !test { return Err(e) }`
unfoldable pub require : {F S : Type 0} → Bool → ApiError → Handler F S (Unit {0})
unfolding pure fail
require true e = pure tt
require false e = fail e

-- Opens all of the above.
unfoldable pub handler : Unit {0}
unfolding ◌>>=◌ pure fail of_result query require
handler = tt

-- Inversion of a run that succeeds.
module _ {F S A B : Type 0} where
  continue-eq-ok :
      (r : Result A ApiError) (f : A → Handler F S B) (w : World F S) {b : B}
      → (continue r f w).0 ≡ ok b
      → (a : A) × (r ≡ ok a) × ((f a w).0 ≡ ok b)
  unfolding continue
  continue-eq-ok (ok a) f w h = (a, refl, h)
  continue-eq-ok (err e) f w h = cc

  pub >>=-eq-ok :
      (m : Handler F S A) (f : A → Handler F S B) (w : World F S) {b : B}
      → ((m >>= f) w).0 ≡ ok b
      → (a : A) × ((m w).0 ≡ ok a) × ((f a (m w).1).0 ≡ ok b)
  unfolding ◌>>=◌
  >>=-eq-ok m f w h = continue-eq-ok (m w).0 f (m w).1 h

pub check-eq-ok :
    {F S A E : Type 0} (f : E → ApiError) (r : Result A E) (w : World F S) {a : A}
    → (of_result (map_err f r) w).0 ≡ ok a
    → r ≡ ok a
unfolding of_result
check-eq-ok f (ok a) w h = cc
check-eq-ok f (err e) w h = cc

pub require-eq-ok :
    {F S : Type 0} (b : Bool) (e : ApiError) (w : World F S) → (require b e w).0 ≡ ok tt → b ≡ true
unfolding require
require-eq-ok true e w h = refl
require-eq-ok false e w h = cc

-- What holds of the world before a handler holds of it after, with any answer.
pub record Keeps {F S A : Type 0} (P : World F S → Type 0) (m : Handler F S A) : Type 0 where
  pub run : (w : World F S) → P w → P (m w).1

module _ {F S A : Type 0} (P : World F S → Type 0) where
  pub pure-Keeps : (a : A) → Keeps P (pure a)
  unfolding pure
  pure-Keeps a = record { run = λ w h. h }

  pub of_result-Keeps : (r : Result A ApiError) → Keeps P (of_result r)
  unfolding of_result
  of_result-Keeps r = record { run = λ w h. h }

  pub query-Keeps : (m : Exec F S A) → ((w : World F S) → P w → P (m w).1) → Keeps P (query m)
  unfolding query
  query-Keeps m k = record { run = k }

pub require-Keeps :
    {F S : Type 0} (P : World F S → Type 0) (b : Bool) (e : ApiError) → Keeps P (require b e)
unfolding require pure fail
require-Keeps P true e = record { run = λ w h. h }
require-Keeps P false e = record { run = λ w h. h }

module _ {F S A B : Type 0} (P : World F S → Type 0) where
  continue-Keeps :
      (r : Result A ApiError) (f : A → Handler F S B) (w : World F S)
      → P w
      → ((a : A) → Keeps P (f a))
      → P (continue r f w).1
  unfolding continue
  continue-Keeps (ok a) f w h k = (k a).run w h
  continue-Keeps (err e) f w h k = h

  pub >>=-Keeps :
      (m : Handler F S A) (f : A → Handler F S B)
      → Keeps P m
      → ((a : A) → Keeps P (f a))
      → Keeps P (m >>= f)
  unfolding ◌>>=◌
  >>=-Keeps m f k l = record { run = λ w h. continue-Keeps (m w).0 f (m w).1 (k.run w h) l }

pub ruleset keeps = (pure-Keeps, of_result-Keeps, require-Keeps, >>=-Keeps)
