-- ===== src/Db/Spares.antt =====
-- The statements of src/db do not touch the caches of the program: only `read_cache` and
-- `write_cache` of `get_transactions` do.
use chain_data_service.Base.{
  ℕ, String, Option, none, some, List, [], ◌∷◌, ◌≡◌, refl, ◌∙◌, Result, ok, err, ℤ,
}
use chain_data_service.Models.{Transaction}
use chain_data_service.Db.Tables.{SqlxError, Db}
use chain_data_service.Db.Exec.{
  Exec, World, ◌>>=◌, continue, pure, lift, run_statement, statement, restore, rolled_back,
}
use chain_data_service.Db.Address.{add_address, get_all_tracked_addresses}
use chain_data_service.Db.Transaction.{insert_all, insert_and_commit, add_transactions}

-- The caches after an action are those before it, with any result.
pub record Spares {F S A : Type 0} (m : Exec F S A) : Type 0 where
  pub run : (w : World F S) → (m w).1.cache ≡ w.cache

module _ {F S A : Type 0} where
  pub pure-Spares : (a : A) → Spares {F = F} {S = S} (pure a)
  unfolding pure
  pure-Spares a = record { run = λ w. refl }

  pub lift-Spares : (r : Result A SqlxError) → Spares {F = F} {S = S} (lift r)
  unfolding lift
  lift-Spares r = record { run = λ w. refl }

  run_statement-Spares :
      (o : Option SqlxError) (f : Db F → Result A SqlxError × Db F) (w : World F S)
      → (run_statement o f w).1.cache ≡ w.cache
  unfolding run_statement
  run_statement-Spares none f w = refl
  run_statement-Spares (some e) f w = refl

  pub statement-Spares : (f : Db F → Result A SqlxError × Db F) → Spares {S = S} (statement f)
  unfolding statement
  statement-Spares f = record { run = λ w. run_statement-Spares (w.fault w.issued) f w }

  restore-Spares :
      (db : Db F) (r : Result A SqlxError × World F S) → (restore db r).1.cache ≡ r.1.cache
  unfolding restore
  restore-Spares db (ok a, w) = refl
  restore-Spares db (err e, w) = refl

  pub rolled_back-Spares : (m : Exec F S A) → Spares m → Spares (rolled_back m)
  unfolding rolled_back
  rolled_back-Spares m k = record { run = λ w. restore-Spares w.db (m w) ∙ k.run w }

module _ {F S A B : Type 0} where
  continue-Spares :
      (r : Result A SqlxError) (f : A → Exec F S B) (w : World F S)
      → ((a : A) → Spares (f a))
      → (continue r f w).1.cache ≡ w.cache
  unfolding continue
  continue-Spares (ok a) f w k = (k a).run w
  continue-Spares (err e) f w k = refl

  pub bind-Spares :
      (m : Exec F S A) (f : A → Exec F S B) → Spares m → ((a : A) → Spares (f a)) → Spares (m >>= f)
  unfolding ◌>>=◌
  bind-Spares m f k l = record { run = λ w. continue-Spares (m w).0 f (m w).1 l ∙ k.run w }

pub ruleset spares = (pure-Spares, lift-Spares, statement-Spares, rolled_back-Spares, bind-Spares)

module _ {F S : Type 0} where
  pub add_address-Spares :
      (decode : String → Option (List ℕ)) (now : ℤ) (a : String)
      → Spares {F = F} {S = S} (add_address decode now a)
  unfolding add_address
  add_address-Spares decode now a = search spares

  pub all_tracked-Spares : Spares {F = F} {S = S} get_all_tracked_addresses
  unfolding get_all_tracked_addresses
  all_tracked-Spares = search spares

  insert_all-Spares : (ts : List (Transaction F)) → Spares {S = S} (insert_all ts)
  unfolding insert_all
  insert_all-Spares [] = search spares
  insert_all-Spares (t ∷ ts) = bind-Spares _ _ (statement-Spares _) λ _. insert_all-Spares ts

  pub add_transactions-Spares : (ts : List (Transaction F)) → Spares {S = S} (add_transactions ts)
  unfolding add_transactions insert_and_commit
  add_transactions-Spares ts = search (spares, insert_all-Spares)
