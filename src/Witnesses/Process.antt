-- ===== src/Witnesses/Process.antt =====
-- The theorems on the start and the end of src/main.rs and on the main loop of
-- src/blockchain/polling.rs, at an absent file, four tasks and three ticks.
use chain_data_service.Base.{
  ℕ, ◌≤◌, ◌<◌, String, true, false, Option, none, some, List, [], ◌∷◌, ◌≡◌, refl, Result, ok, arith,
}
use chain_data_service.Db.Tables.{SqlxError}
use chain_data_service.Db.Schema.{Schema, columns_of, has_index}
use chain_data_service.Db.Schema.Runs.{or_first}
use chain_data_service.Startup.{
  Disk, Pool, ConnectOptions, or_empty, open_database, database_url, ◌>>=◌, pure,
}
use chain_data_service.Startup.Restart.{
  tracked_columns, transaction_columns, open_database-columns, open_database_again,
}
use chain_data_service.Shutdown.{
  Task, batch, polling, server, worker_pool, exit_time, exit_time-bounds,
}
use chain_data_service.Blockchain.Polling.{Poll, poll_ranges}
use chain_data_service.Blockchain.Processor.{collect}
use chain_data_service.Blockchain.Polling.Loop.{Tick, main_loop, Covers, main_loop-Covers}
use chain_data_service.Fixtures.{manager, node, same_order, set_order}

abbrev pub disk : Disk
disk = record { file = none; fault = λ n. none; issued = 0 }

abbrev pub parse : List ℕ → Result ConnectOptions SqlxError
parse url = ok (record { path = url; create_if_missing = false; wal = false; foreign_keys = false })

abbrev pub var : String → Option String
var name = none

-- The pool that the start opens.
abbrev pub pool : Pool
pool = record {
  path = database_url var "/srv";
  create_if_missing = true;
  wal = true;
  foreign_keys = true;
}

pub opens : (open_database parse var "/srv" disk).0 ≡ ok pool
unfolding open_database columns_of has_index ◌>>=◌ pure
opens = refl

open_database-columns_example :
    (s : Schema) × ((open_database parse var "/srv" disk).1.file ≡ some s)
    × (columns_of "tracked_addresses" s.tables
        ≡ or_first (columns_of "tracked_addresses" (or_empty none).tables) (some tracked_columns))
    × (columns_of "transactions" s.tables
        ≡ or_first (columns_of "transactions" (or_empty none).tables) (some transaction_columns))
open_database-columns_example = open_database-columns parse var "/srv" disk pool opens

restarted : Disk
restarted = record {
  file = (open_database parse var "/srv" disk).1.file;
  fault = λ n. none;
  issued = 0;
}

open_database_again_example :
    (pool' : Pool) × (k : ℕ) × (open_database parse var "/srv" restarted
      ≡ (ok pool', record restarted { issued = k }))
unfolding restarted
open_database_again_example =
    open_database_again parse var "/srv" disk restarted pool
      (record {
        path = database_url var "/srv";
        create_if_missing = false;
        wal = false;
        foreign_keys = false;
      })
      opens refl (λ n. refl) refl

-- The batch manager and the workers never finish.
unfoldable finish : Task → Option ℕ
finish batch = none
finish polling = some 3000
finish server = some 20
finish worker_pool = none

exit_time-bounds_example :
    (exit_time finish ≤ 40000)
    × ((t : Task) (n : ℕ) → finish t ≡ some n → n ≤ 10000 → n ≤ exit_time finish)
    × ((n : ℕ)
        → n ≤ 10000
        → ((t : Task) → (m : ℕ) × (finish t ≡ some m) × (m ≤ n))
        → exit_time finish ≤ n)
exit_time-bounds_example = exit_time-bounds finish

abbrev poll : Poll ℕ
poll = record { manager = manager; sent = 0; readings = 0 }

abbrev ticks : List Tick
ticks =
    record { addresses = ok ("A" ∷ []); latest_slot = some 5 }
    ∷ record { addresses = ok ("A" ∷ []); latest_slot = none }
    ∷ record { addresses = ok ("A" ∷ []); latest_slot = some 9 }
    ∷ []

small :
    (last slot : ℕ)
    → last < 18446744073709551607
    → some last ≡ some slot
    → slot < 18446744073709551607
small last slot h e = ground (arith, e)

main_loop-Covers_example :
    (rs : List (ℕ × ℕ)) × ((main_loop node same_order (λ n. n) set_order ticks 3 poll).1
      ≡ (poll_ranges node same_order
          (λ n. n)
          (set_order.iterate (collect [] ("A" ∷ [])))
          rs
          poll).1)
    × Covers 3 (main_loop node same_order (λ n. n) set_order ticks 3 poll).0 rs
main_loop-Covers_example =
    main_loop-Covers node same_order (λ n. n) set_order "A" [] ticks 3 poll
      (refl, (refl, (refl, tt)))
      (
        (λ slot e. small 5 slot (omega arith) e),
        ((λ slot e. ground (arith, e)), ((λ slot e. small 9 slot (omega arith) e), tt)),
      )
