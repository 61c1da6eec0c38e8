-- ===== src/Blockchain/Batch/Bounds.antt =====
-- The size of the buffer of the batch manager, and when it is emptied.
use chain_data_service.Base.{
  ℕ, ◌+◌, ◌-◌, ◌≤◌, ◌<◌, ◌≡◌, ◌↔◌, ◌⊎◌, refl, String, List, [], ◌∷◌, ◌++◌, flatten, arith, length,
  length-append, str_eq, inl, inr, Bool-cases,
}
use chain_data_service.Models.{Transaction}
use chain_data_service.Blockchain.Batch.{
  Pending, DrainOrder, BatchManager, Event, add, force, tick, cancelled, push_pending,
  push_transaction, collect_transactions_for_flush, flush, add_transaction, perform_flush_check,
  force_flush, run_loop, should_flush,
}
use chain_data_service.Blockchain.Batch.Conserve.{all_pending}

module _ {ℓ} {A : Type ℓ} where
  nil_of_length : (xs : List A) → length xs ≡ 0 → xs ≡ []
  nil_of_length [] h = refl
  nil_of_length (x ∷ xs) h = absurd (omega arith)

  length_of_nil : (xs : List A) → xs ≡ [] → length xs ≡ 0
  length_of_nil xs h = rw h

module _ {F : Type 0} where
  -- `total_size` counts the transactions in the map, and stays below the batch size.
  pub record IsValid (self : BatchManager F) : Type 0 where
    pub counted : self.buffer.total_size ≡ length (all_pending self.buffer.pending)
    pub bounded : self.buffer.total_size < self.config.max_batch_size

  length-push_pending :
      (a : String) (t : Transaction F) (p : Pending F)
      → length (all_pending (push_pending a t p)) ≡ length (all_pending p) + 1
  unfolding push_pending flatten
  length-push_pending a t [] = omega arith
  length-push_pending a t ((b, ts) ∷ p) = elim (Bool-cases (str_eq b a)) [
    | inl hit ↦ rw hit (
        omega (
          arith,
          length-append (ts ++ t ∷ []) (all_pending p),
          length-append ts (t ∷ []),
          length-append ts (all_pending p),
        ))
    | inr miss ↦ rw miss (
        omega (
          arith,
          length-append ts (all_pending (push_pending a t p)),
          length-append ts (all_pending p),
          length-push_pending a t p,
        ))
  ]

  module _ (order : DrainOrder F) where
    add_transaction-IsValid :
        (now : ℕ) (t : Transaction F) (self : BatchManager F)
        → IsValid self
        → IsValid (add_transaction order now t self)
    unfolding add_transaction push_transaction should_flush flush collect_transactions_for_flush
        flatten
    add_transaction-IsValid now t self v =
        ground (arith, length-push_pending t.source_address t self.buffer.pending)

    flush-IsValid :
        (now : ℕ) (self : BatchManager F) → IsValid self → IsValid (flush order now self)
    unfolding flush collect_transactions_for_flush flatten
    flush-IsValid now self v = ground arith

    perform_flush_check-IsValid :
        (now : ℕ) (self : BatchManager F)
        → IsValid self
        → IsValid (perform_flush_check order now self)
    unfolding perform_flush_check
    perform_flush_check-IsValid now self v = ground (arith, flush-IsValid now self v)

    -- From a valid manager, whatever is called in whatever order, the buffer's counter is the
    -- number of buffered transactions and stays below the batch size.
    pub run_loop-IsValid :
        (es : List (Event F)) (self : BatchManager F)
        → IsValid self
        → IsValid (run_loop order es self)
    unfolding run_loop force_flush
    run_loop-IsValid [] self v = v
    run_loop-IsValid (add now t ∷ es) self v =
        run_loop-IsValid es _ (add_transaction-IsValid now t self v)
    run_loop-IsValid (force now ∷ es) self v = run_loop-IsValid es _ (flush-IsValid now self v)
    run_loop-IsValid (tick now ∷ es) self v =
        run_loop-IsValid es _ (perform_flush_check-IsValid now self v)
    run_loop-IsValid (cancelled now ∷ es) self v = perform_flush_check-IsValid now self v

    -- In a valid manager, the check on cancellation empties the buffer exactly if it was empty or
    -- the flush interval has passed since the last flush; a smaller buffer that is younger than
    -- that stays behind.
    pub cancelled_empties_iff :
        (now : ℕ) (es : List (Event F)) (self : BatchManager F)
        → IsValid self
        → (all_pending (run_loop order (cancelled now ∷ es) self).buffer.pending ≡ []) ↔ (
            (all_pending self.buffer.pending ≡ [])
            ⊎ (self.config.flush_interval ≤ now - self.buffer.last_flush))
    unfolding run_loop perform_flush_check should_flush flush collect_transactions_for_flush flatten
    cancelled_empties_iff now es self v = (
      λ h. ground (arith, nil_of_length (all_pending self.buffer.pending)),
      λ h. ground (
        arith,
        nil_of_length (all_pending self.buffer.pending),
        length_of_nil (all_pending self.buffer.pending),
      ),
    )
