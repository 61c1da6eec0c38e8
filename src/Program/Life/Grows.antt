-- ===== src/Program/Life/Grows.antt =====
-- What becomes of the stored transactions in the life of the program of src/main.rs.
use chain_data_service.Base.{List, ◌++◌, ◌≡◌, All}
use chain_data_service.Db.Tables.{Db, TransactionRow}
use chain_data_service.Db.Invariant.{IsConsistent}
use chain_data_service.Blockchain.Services.{Services}
use chain_data_service.Blockchain.Processor.Authentic.{IsAuthentic}

module _ {F : Type 0} (services : Services F) (start : Db F) where
  -- The tables are consistent, and their rows are those at the start and then rows of transactions
  -- that the node yields.
  pub record IsIntact (db : Db F) : Type 0 where
    pub consistent : IsConsistent db
    pub added : List (TransactionRow F)
    pub grown : db.transactions ≡ start.transactions ++ added
    pub authentic : All (IsAuthentic services) added
