-- ===== src/Db/Keeps.antt =====
-- What each statement keeps, every function of src/db keeps, whatever statements fail; so the
-- tables stay consistent.
use chain_data_service.Base.{ℕ, String, Option, none, some, List, [], ◌∷◌, Result, ok, err, ℤ, All}
use chain_data_service.Models.{Transaction}
use chain_data_service.Db.Tables.{
  SqlxError, Db, TransactionRow, upsert, delete_address, insert_transaction,
}
use chain_data_service.Db.Exec.{
  Exec, World, ◌>>=◌, continue, pure, lift, run_statement, statement, restore, rolled_back,
}
use chain_data_service.Db.Address.{add_address, remove_address}
use chain_data_service.Db.Transaction.{to_row, insert_all, insert_and_commit, add_transactions}
use chain_data_service.Db.Invariant.{
  IsConsistent, upsert-IsConsistent, delete_address-IsConsistent, insert_transaction-IsConsistent,
}

-- What holds of the tables before an action holds of them after, with any result.
pub record Keeps {F S A : Type 0} (P : Db F → Type 0) (m : Exec F S A) : Type 0 where
  pub run : (w : World F S) → P w.db → P (m w).1.db

module _ {F S A : Type 0} (P : Db F → Type 0) where
  pub pure-Keeps : (a : A) → Keeps {S = S} P (pure a)
  unfolding pure
  pure-Keeps a = record { run = λ w h. h }

  pub lift-Keeps : (r : Result A SqlxError) → Keeps {S = S} P (lift r)
  unfolding lift
  lift-Keeps r = record { run = λ w h. h }

  run_statement-Keeps :
      (o : Option SqlxError) (f : Db F → Result A SqlxError × Db F)
      → ((db : Db F) → P db → P (f db).1)
      → (w : World F S) → P w.db
      → P (run_statement o f w).1.db
  unfolding run_statement
  run_statement-Keeps none f keep w h = keep w.db h
  run_statement-Keeps (some e) f keep w h = h

  pub statement-Keeps :
      (f : Db F → Result A SqlxError × Db F)
      → ((db : Db F) → P db → P (f db).1)
      → Keeps {S = S} P (statement f)
  unfolding statement
  statement-Keeps f keep = record { run = λ w h. run_statement-Keeps (w.fault w.issued) f keep w h }

  pub rolled_back-Keeps : (m : Exec F S A) → Keeps P m → Keeps P (rolled_back m)
  unfolding rolled_back
  rolled_back-Keeps m k = record { run = λ w h. restored w.db (m w) h (k.run w h) }
    where
      restored :
          (db : Db F) (r : Result A SqlxError × World F S) → P db → P r.1.db → P (restore db r).1.db
      restored db (ok a, w) h j = j
      restored db (err e, w) h j = h

module _ {F S A B : Type 0} (P : Db F → Type 0) where
  continue-Keeps :
      (r : Result A SqlxError) (f : A → Exec F S B) (w : World F S)
      → P w.db
      → ((a : A) → Keeps P (f a))
      → P (continue r f w).1.db
  unfolding continue
  continue-Keeps (ok a) f w h k = (k a).run w h
  continue-Keeps (err e) f w h k = h

  pub bind-Keeps :
      (m : Exec F S A) (f : A → Exec F S B)
      → Keeps P m
      → ((a : A) → Keeps P (f a))
      → Keeps P (m >>= f)
  unfolding ◌>>=◌
  bind-Keeps m f k l = record { run = λ w h. continue-Keeps (m w).0 f (m w).1 (k.run w h) l }

pub ruleset keeps = (pure-Keeps, lift-Keeps, statement-Keeps, rolled_back-Keeps, bind-Keeps)

-- What the three statements that write keep, where the rows that are inserted satisfy `Q`.
pub record IsStable {F : Type 0} (P : Db F → Type 0) (Q : TransactionRow F → Type 0) : Type 0 where
  pub upserts :
      (a : String) (now : ℤ) (db : Db F)
      → P db
      → P (record db { tracked = upsert a now db.tracked })
  pub deletes : (a : String) (db : Db F) → P db → P (delete_address a db).1
  pub inserts : (r : TransactionRow F) (db : Db F) → Q r → P db → P (insert_transaction r db).1

pub IsConsistent-IsStable : {F : Type 0} → IsStable (IsConsistent {F = F}) (λ r. Unit)
IsConsistent-IsStable = record {
  upserts = upsert-IsConsistent;
  deletes = delete_address-IsConsistent;
  inserts = λ r db q. insert_transaction-IsConsistent r db;
}

module _ {F S : Type 0} (P : Db F → Type 0) {Q : TransactionRow F → Type 0}
    (stable : IsStable P Q) where
  pub add_address-Keeps :
      (decode : String → Option (List ℕ)) (now : ℤ) (a : String)
      → Keeps {S = S} P (add_address decode now a)
  unfolding add_address
  add_address-Keeps decode now a = search (keeps, stable.upserts)

  pub remove_address-Keeps : (a : String) → Keeps {S = S} P (remove_address a)
  unfolding remove_address
  remove_address-Keeps a = search (keeps, stable.deletes)

  insert_all-Keeps :
      (ts : List (Transaction F)) → All (λ t. Q (to_row t)) ts → Keeps {S = S} P (insert_all ts)
  unfolding insert_all
  insert_all-Keeps [] h = search keeps
  insert_all-Keeps (t ∷ ts) (q, h) =
      bind-Keeps P _ _ (statement-Keeps P _ λ db. stable.inserts (to_row t) db q)
        λ _. insert_all-Keeps ts h

  pub add_transactions-Keeps :
      (ts : List (Transaction F))
      → All (λ t. Q (to_row t)) ts
      → Keeps {S = S} P (add_transactions ts)
  unfolding add_transactions insert_and_commit
  add_transactions-Keeps ts h =
      bind-Keeps P _ _ (statement-Keeps P _ (λ db k. k))
        λ _. rolled_back-Keeps P _ (bind-Keeps P _ _ (insert_all-Keeps ts h) λ _. search keeps)
