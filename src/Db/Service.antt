-- ===== src/Db/Service.antt =====
-- What src/db promises its callers, with the tables forgotten: which addresses are tracked, which
-- signatures are stored, and which addresses stored transactions name. The commands are the calls
-- of src/db/address.rs and src/db/transaction.rs that write, and `is_address_tracked`.
pub mod Store
pub mod Refines
use chain_data_service.Base.{
  ℕ, String, Bool, true, false, Option, none, some, List, [], ◌∷◌, Result, ok, err, ℤ, not, ◌&&◌,
  ◌||◌, map_err, ltb, if◌then◌else◌, str_eq,
}
use chain_data_service.Models.{Transaction}
use chain_data_service.Validation.{ValidationError, validate_solana_address, to_string}
use chain_data_service.Db.Tables.{
  SqlxError, protocol, foreign_key, Db, is_text, count_address, has_signature, has_reference,
}
use chain_data_service.Db.Exec.{Exec, World, ◌>>=◌, ◌>>◌, pure}
use chain_data_service.Db.Address.{add_address, remove_address, is_address_tracked}
use chain_data_service.Db.Transaction.{add_transactions}

pub record Service : Type 0 where
  pub tracked : String → Bool
  pub stored : String → Bool
  pub named : String → Bool

-- The view of a database.
unfoldable pub view : {F : Type 0} → Db F → Service
view db = record {
  tracked = λ a. ltb 0 (count_address a db.tracked);
  stored = λ s. has_signature s db.transactions;
  named = λ a. has_reference a db.transactions;
}

pub data Command (F : Type 0) : Type 0 where
  track : ℤ → String → Command F
  untrack : String → Command F
  ask : String → Command F
  store_batch : List (Transaction F) → Command F

pub data Answer : Type 0 where
  done : Answer
  was_tracked : Bool → Answer

module _ {F S : Type 0} (decode : String → Option (List ℕ)) where
  -- A command, as the program carries it out.
  unfoldable pub perform : Command F → Exec F S Answer
  perform (track now a) = do add_address decode now a; pure done
  perform (untrack a) = do removed ← remove_address a; pure (was_tracked removed)
  perform (ask a) = do tracked ← is_address_tracked a; pure (was_tracked tracked)
  perform (store_batch ts) = do add_transactions ts; pure done

  unfoldable pub perform_all :
      List (Command F) → World F S → List (Result Answer SqlxError) × World F S
  unfolding perform
  perform_all [] w = ([], w)
  perform_all (c ∷ cs) w =
      let (r, w') = perform c w in let (rs, w'') = perform_all cs w' in (r ∷ rs, w'')

unfoldable pub destination_tracked : (String → Bool) → Option String → Bool
destination_tracked tracked none = true
destination_tracked tracked (some d) = tracked d

module _ {F : Type 0} where
  -- A transaction is accepted if its signature is stored, which changes nothing, or if the
  -- addresses that it names are tracked.
  unfoldable pub accept : Transaction F → Service → Option Service
  unfolding destination_tracked is_text
  accept t s =
      if s.stored t.signature
      then some s
      else if s.tracked t.source_address && destination_tracked s.tracked t.destination_address
      then some (record s {
        stored = λ x. s.stored x || str_eq t.signature x;
        named = λ a. s.named a || (str_eq t.source_address a || is_text a t.destination_address);
      })
      else none

  unfoldable pub accept_all : List (Transaction F) → Service → Option Service
  unfolding accept
  accept_all [] s = some s
  accept_all (t ∷ ts) s = elim (accept t s) [ none ↦ none | some s' ↦ accept_all ts s' ]

  -- What a command is to do.
  unfoldable pub promise :
      (String → Option (List ℕ)) → Command F → Service → Result Answer SqlxError × Service
  unfolding accept_all
  promise decode (track now a) s = elim (validate_solana_address decode a) [
    | err e ↦ (err (protocol (to_string e)), s)
    | ok u ↦ (ok done, record s { tracked = λ b. str_eq a b || s.tracked b })
  ]
  promise decode (untrack a) s = if s.tracked a && s.named a then (err foreign_key, s) else (
    ok (was_tracked (s.tracked a)),
    record s { tracked = λ b. not (str_eq a b) && s.tracked b },
  )
  promise decode (ask a) s = (ok (was_tracked (s.tracked a)), s)
  promise decode (store_batch ts) s = elim (accept_all ts s) [
    | none ↦ (err foreign_key, s)
    | some s' ↦ (ok done, s')
  ]

  unfoldable pub promise_all :
      (String → Option (List ℕ))
      → List (Command F)
      → Service
      → List (Result Answer SqlxError) × Service
  unfolding promise
  promise_all decode [] s = ([], s)
  promise_all decode (c ∷ cs) s =
      let (r, s') = promise decode c s in let (rs, s'') = promise_all decode cs s' in (r ∷ rs, s'')
