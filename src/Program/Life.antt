-- ===== src/Program/Life.antt =====
-- The life of the program of src/main.rs: the server answers requests and the workers store
-- batches, one after another, in any order and with any failures.
pub mod Holds
pub mod Grows
pub mod Flights
pub mod Pages
use chain_data_service.Base.{
  ℕ, String, List, [], ◌∷◌, ◌++◌, ◌≡◌, refl, sym, ap, ◌∙◌, subst, ℤ, All, All-append, append_assoc,
  append-nil, arith, Result, ok, err, Bool, true, false, if◌then◌else◌, Bool-cases, inl, inr,
  str_eq, ◌&&◌, ltb,
}
use chain_data_service.Models.{Transaction}
use chain_data_service.Db.Tables.{
  Db, TransactionRow, insert_transaction, delete_address, has_signature, references_ok,
  count_address, has_reference,
}
use chain_data_service.Db.Exec.{World, exec}
use chain_data_service.Db.Address.{is_address_tracked}
use chain_data_service.Db.Invariant.{IsConsistent}
use chain_data_service.Db.Keeps.{
  IsStable, IsConsistent-IsStable, add_address-Keeps, remove_address-Keeps,
}
use chain_data_service.Db.Transaction.{to_row}
use chain_data_service.Db.Transaction as Stored
use chain_data_service.Db.Coherence.{get_transactions-after}
use chain_data_service.Blockchain.Services.{Services}
use chain_data_service.Blockchain.Services.Laws.{IsYielded}
use chain_data_service.Api.Handler.{Keeps, keeps, query-Keeps}
use chain_data_service.Api.Route.{
  TrackQuery, TransactionsQuery, check_address, add_tracking, remove_tracking, track_address,
  get_transactions,
}
use chain_data_service.Api.Router.Holds.{serve-Keeps}
use chain_data_service.Blockchain.Processor.{SetOrder, run}
use chain_data_service.Blockchain.Processor.Keeps.{run-Keeps}
use chain_data_service.Blockchain.Processor.Authentic.{IsAuthentic}
use chain_data_service.Api.Router.{Outside, State, Served, Axum, Request, serve}

-- What happens: a request, or a batch that a worker takes after `asked` requests to the node.
pub data Happening (F : Type 0) : Type 0 where
  request : Request → Happening F
  batch : (asked : ℕ) → List (Transaction F) → Happening F

module _ {F : Type 0} (o : Outside F) (axum : Axum (Served o)) (services : Services F)
    (clock : ℕ → ℤ) (set : SetOrder) where
  unfoldable pub happen : Happening F → State o → State o
  unfolding serve run
  happen (request r) w = (serve o axum r w).1
  happen (batch asked ts) w = (run o.decode clock services set asked (ts ∷ []) w).1

  unfoldable pub live : List (Happening F) → State o → State o
  unfolding happen
  live [] w = w
  live (h ∷ hs) w = live hs (happen h w)
