-- ===== src/Fixtures.antt =====
-- Concrete data for the witnesses: a cache that keeps nothing, the order of rows by an insertion
-- sort, a node that knows one transaction, and small tables.
use mathlib.Core.List.{Perm, Pairwise}
use mathlib.Core.List.Perm
use mathlib.Core.List.{Mem, not-mem-nil, eq-or-mem_of_mem-cons}
use mathlib.Core.Logic.Or
use native.Mathlib.Bridge.{le_prop}
use chain_data_service.Base.{
  ℕ, suc, String, true, false, Option, none, some, List, [], ◌∷◌, ok, pos, leb_ℤ, ◌≤ℤ◌, ◌≡◌, refl,
  sym, subst, All-perm, pos_part, if◌then◌else◌, inl, inr, Bool-cases, arith, All,
}
use chain_data_service.Models.{Transaction}
use chain_data_service.Cache.Moka.{Moka}
use chain_data_service.Cache.Address.{AppCache}
use chain_data_service.Db.Tables.{TransactionRow, Db}
use chain_data_service.Db.Exec.{World}
use chain_data_service.Db.Transaction.{RowOrder, to_row}
use chain_data_service.Blockchain.Batch.{DrainOrder, BatchManager}
use chain_data_service.Blockchain.Extract.{
  Json, UiParsedMessage, UiTransactionStatusMeta, EncodedConfirmedTransaction, json_transaction,
  parsed_message,
}
use chain_data_service.Blockchain.Services.{Services}
use chain_data_service.Blockchain.Processor.{SetOrder}

pub none_found : {V : Type 0} {P : Type 0} (w : V) → none ≡ some w → P
none_found w e = absurd (ground arith)

-- A capacity of 0.
unfoldable pub keep_nothing : {K V : Type 0} → Moka K V
keep_nothing = record {
  Store = Unit {0};
  build = λ c d. tt;
  get = λ k s. none;
  insert = λ k v s. s;
  invalidate = λ k s. s;
  invalidate_entries_if = λ p s. (ok tt, s);
  get-build = λ c d k. refl;
  get-insert = λ k j v w s e. none_found w e;
  get-invalidate = λ k j w s e. none_found w e;
}

module _ {F : Type 0} where
  unfoldable pub insert_row : TransactionRow F → List (TransactionRow F) → List (TransactionRow F)
  insert_row r [] = r ∷ []
  insert_row r (s ∷ rs) =
      if leb_ℤ r.block_time s.block_time then r ∷ s ∷ rs else s ∷ insert_row r rs

  unfoldable pub sort_rows : List (TransactionRow F) → List (TransactionRow F)
  sort_rows [] = []
  sort_rows (r ∷ rs) = insert_row r (sort_rows rs)

  insert_row-perm :
      (r : TransactionRow F) (rs : List (TransactionRow F)) → Perm (insert_row r rs) (r ∷ rs)
  unfolding insert_row
  insert_row-perm r [] = Perm.rfl
  insert_row-perm r (s ∷ rs) = elim (Bool-cases (leb_ℤ r.block_time s.block_time)) [
    | inl h ↦ rw h Perm.rfl
    | inr h ↦ rw h (Perm.trans (Perm.cons s (insert_row-perm r rs)) (Perm.swap _ _ _))
  ]

  pub sort_rows-perm : (rs : List (TransactionRow F)) → Perm (sort_rows rs) rs
  unfolding sort_rows
  sort_rows-perm [] = Perm.rfl
  sort_rows-perm (r ∷ rs) =
      Perm.trans (insert_row-perm r (sort_rows rs)) (Perm.cons r (sort_rows-perm rs))

  abbrev Le : TransactionRow F → TransactionRow F → Type 0
  Le r s = r.block_time ≤ℤ s.block_time

  Le-prop : (r s : TransactionRow F) → IsProp (Le r s)
  Le-prop r s = le_prop

  All-mem :
      (r : TransactionRow F) (rs : List (TransactionRow F))
      → All (Le r) rs
      → (s : TransactionRow F) → Mem s rs
      → Le r s
  All-mem r [] h s m = absurd (not-mem-nil m)
  All-mem r (x ∷ xs) (p, h) s m =
      Or.elim (Le-prop r s) (eq-or-mem_of_mem-cons m) (λ e. subst (Le r) (sym e) p)
        (All-mem r xs h s)

  -- Each row is at most those that follow.
  pub Sorted : List (TransactionRow F) → Type 0
  Sorted [] = Unit
  Sorted (r ∷ rs) = All (Le r) rs × Sorted rs

  All-trans :
      (r s : TransactionRow F) (rs : List (TransactionRow F))
      → Le r s
      → All (Le s) rs
      → All (Le r) rs
  All-trans r s [] h k = tt
  All-trans r s (x ∷ xs) h (p, k) = (omega arith, All-trans r s xs h k)

  insert_row-Sorted :
      (r : TransactionRow F) (rs : List (TransactionRow F)) → Sorted rs → Sorted (insert_row r rs)
  unfolding insert_row Sorted
  insert_row-Sorted r [] h = (tt, tt)
  insert_row-Sorted r (s ∷ rs) (p, h) = elim (Bool-cases (leb_ℤ r.block_time s.block_time)) [
    | inl e ↦ let le : Le r s = ground (arith, e) in rw e ((le, All-trans r s rs le p), (p, h))
    | inr e ↦
        let le : Le s r = ground (arith, e) in
        rw e (All-perm (Le s) (Le-prop s) (insert_row-perm r rs) (le, p), insert_row-Sorted r rs h)
  ]

  pub sort_rows-Sorted : (rs : List (TransactionRow F)) → Sorted (sort_rows rs)
  unfolding sort_rows Sorted
  sort_rows-Sorted [] = tt
  sort_rows-Sorted (r ∷ rs) = insert_row-Sorted r (sort_rows rs) (sort_rows-Sorted rs)

  pub Sorted-Pairwise : (rs : List (TransactionRow F)) → Sorted rs → Pairwise Le rs
  unfolding Sorted
  Sorted-Pairwise [] h = Pairwise.nil
  Sorted-Pairwise (r ∷ rs) (p, h) = Pairwise.cons (All-mem r rs p) (Sorted-Pairwise rs h)

  unfoldable pub by_time : RowOrder F
  unfolding sort_rows insert_row
  by_time = record {
    order_by = sort_rows;
    order_by-Pairwise = λ rows. Sorted-Pairwise _ (sort_rows-Sorted rows);
    order_by-perm = sort_rows-perm;
  }

bytes : ℕ → List ℕ
bytes ℕ.zero = []
bytes (suc n) = 1 ∷ bytes n

-- A key of 32 bytes for every text.
unfoldable pub decode : String → Option (List ℕ)
unfolding bytes
decode a = some (bytes 32)

abbrev pub keep : ℕ → List ℕ
keep c = c ∷ []

abbrev pub payment : Transaction ℕ
payment = record {
  signature = "s1";
  block_time = pos 100;
  slot = pos 7;
  source_address = "A";
  destination_address = some "B";
  amount = some 5;
  program_id = none;
  success = true;
}

abbrev pub tables : Db ℕ
tables = record {
  tracked =
      record { address = some "A"; added_at = pos 1 }
      ∷ record { address = some "B"; added_at = pos 2 }
      ∷ [];
  transactions = [];
}

-- The same with the payment stored.
abbrev pub paid : Db ℕ
paid = record tables { transactions = to_row payment ∷ [] }

abbrev pub calm_world : {S : Type 0} → Db ℕ → S → World ℕ S
calm_world db cache = record { db = db; fault = λ n. none; issued = 0; cache = cache }

unfoldable pub caches : AppCache {F = ℕ} keep_nothing keep_nothing
unfolding keep_nothing
caches = record {
  transaction_cache = record { cache = tt; default_ttl = 60 };
  address_cache = record { cache = tt };
}

unfoldable pub same_order : DrainOrder ℕ
same_order = record { drain = λ p. p; drain-perm = λ p. Perm.rfl }

abbrev pub manager : BatchManager ℕ
manager = record {
  buffer = record { pending = []; total_size = 0; last_flush = 0 };
  config = record { max_batch_size = 2; flush_interval = 5; worker_count = 1 };
  worker_sender = record { is_open = true; queue = [] };
}

abbrev pub no_json : Json
no_json = record {
  Value = Unit {0};
  Map = Unit {0};
  Parsed = Unit {0};
  null = tt;
  to_value = λ p. none;
  as_object = λ v. none;
  map_get = λ m k. none;
  get = λ v k. none;
  as_str = λ v. none;
  as_u64 = λ v. none;
}

-- A message from "A" and "B", whose balances have moved by 5.
abbrev pub message : UiParsedMessage (Unit {0})
message = record {
  account_keys = record { pubkey = "A" } ∷ record { pubkey = "B" } ∷ [];
  instructions = [];
}

abbrev pub status_meta : UiTransactionStatusMeta
status_meta = record { has_err = false; pre_balances = 10 ∷ 0 ∷ []; post_balances = 5 ∷ 5 ∷ [] }

abbrev pub tx_data : EncodedConfirmedTransaction (Unit {0})
tx_data = record {
  slot = 7;
  block_time = some (pos 100);
  transaction = json_transaction (parsed_message message);
  meta = some status_meta;
}

unfoldable pub node : Services ℕ
node = record {
  json = no_json;
  to_sol = pos_part;
  parse_f64 = λ s. none;
  system_program_id = "sys";
  token_program_id = "tok";
  get_transaction = λ n s. some tx_data;
  get_signatures =
      λ n a b l. some (record { signature = "s1"; slot = 7; block_time = some (pos 100) } ∷ []);
}

unfoldable pub set_order : SetOrder
set_order = record { iterate = λ s. s; iterate-perm = λ s. Perm.rfl }
