-- ===== src/Db/Exec.antt =====
-- A connection to the database: what a call of the program may read and change, and the outcome of
-- each statement. The engine runs the statements one after another; the n-th fails with `fault n`
-- if that is an error, and has then no effect.
use chain_data_service.Base.{ℕ, suc, Option, none, some, Result, ok, err, ◌≡◌, ap}
use chain_data_service.Db.Tables.{SqlxError, Db}

-- `S` is the state of the caches.
pub record World (F S : Type 0) : Type 0 where
  pub db : Db F
  pub fault : ℕ → Option SqlxError
  pub issued : ℕ
  pub cache : S

abbrev pub Exec : Type 0 → Type 0 → Type 0 → Type 0
Exec F S A = World F S → Result A SqlxError × World F S

module _ {F S A B : Type 0} where
  unfoldable pub continue : Result A SqlxError → (A → Exec F S B) → Exec F S B
  continue (ok a) f w = f a w
  continue (err e) f w = (err e, w)

  infixl 5 ◌>>=◌ ◌>>◌
  unfoldable pub ◌>>=◌ : Exec F S A → (A → Exec F S B) → Exec F S B
  unfolding continue
  ◌>>=◌ m f w = let (r, w') = m w in continue r f w'

  abbrev pub ◌>>◌ : Exec F S A → Exec F S B → Exec F S B
  m >> k = m >>= λ _. k

module _ {F S A : Type 0} where
  unfoldable pub pure : A → Exec F S A
  pure a w = (ok a, w)

  unfoldable pub lift : Result A SqlxError → Exec F S A
  lift r w = (r, w)

  -- What the engine does with a statement that it accepts, and with one that fails.
  unfoldable pub run_statement : Option SqlxError → (Db F → Result A SqlxError × Db F) → Exec F S A
  run_statement none f w =
      let (r, db') = f w.db in (r, record w { db = db'; issued = suc w.issued })
  run_statement (some e) f w = (err e, record w { issued = suc w.issued })

  -- `.execute(pool)`, `.fetch_one(pool)` and `.fetch_all(pool)`.
  unfoldable pub statement : (Db F → Result A SqlxError × Db F) → Exec F S A
  unfolding run_statement
  statement f w = run_statement (w.fault w.issued) f w

  unfoldable pub restore : Db F → Result A SqlxError × World F S → Result A SqlxError × World F S
  restore db (ok a, w) = (ok a, w)
  restore db (err e, w) = (err e, record w { db = db })

  -- What `sqlx` does with an open transaction: an error drops it, which rolls it back.
  unfoldable pub rolled_back : Exec F S A → Exec F S A
  unfolding restore
  rolled_back m w = restore w.db (m w)

-- Opens all of the above.
unfoldable pub exec : Unit {0}
unfolding ◌>>=◌ pure lift statement rolled_back
exec = tt

-- A step of a run whose outcome is known.
pub bind-eq :
    {F S A B : Type 0} (m : Exec F S A) (f : A → Exec F S B) (w w' : World F S) {a : A}
    → m w ≡ (ok a, w')
    → (m >>= f) w ≡ f a w'
unfolding ◌>>=◌
bind-eq m f w w' e = ap (λ r. continue r.0 f r.1) e

pub bind-eq-err :
    {F S A B : Type 0} (m : Exec F S A) (f : A → Exec F S B) (w w' : World F S) {x : SqlxError}
    → m w ≡ (err x, w')
    → (m >>= f) w ≡ (err x, w')
unfolding ◌>>=◌
bind-eq-err m f w w' e = ap (λ r. continue r.0 f r.1) e

pub statement-eq :
    {F S A : Type 0} (f : Db F → Result A SqlxError × Db F) (w : World F S) {a : A} {db' : Db F}
    → w.fault w.issued ≡ none
    → f w.db ≡ (ok a, db')
    → statement f w ≡ (ok a, record w { db = db'; issued = suc w.issued })
unfolding statement
statement-eq f w calm e = rw calm (ap (λ r. (r.0, record w { db = r.1; issued = suc w.issued })) e)

pub statement-eq-err :
    {F S A : Type 0} (f : Db F → Result A SqlxError × Db F) (w : World F S) {e : SqlxError}
    {db' : Db F}
    → w.fault w.issued ≡ none
    → f w.db ≡ (err e, db')
    → statement f w ≡ (err e, record w { db = db'; issued = suc w.issued })
unfolding statement
statement-eq-err f w calm e =
    rw calm (ap (λ r. (r.0, record w { db = r.1; issued = suc w.issued })) e)

-- No statement fails.
abbrev pub IsCalm : {F S : Type 0} → World F S → Type 0
IsCalm w = (n : ℕ) → w.fault n ≡ none
