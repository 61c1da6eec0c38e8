-- ===== src/Blockchain/Polling/Added.antt =====
-- What `process_transaction_signatures` of src/blockchain/polling.rs hands to the batch manager.
use mathlib.Core.List.{Perm, perm_middle}
use mathlib.Core.List.Perm
use chain_data_service.Base.{
  swap_blocks, ℕ, ◌+◌, ◌≡◌, refl, ap, subst, ◌∙◌, String, List, [], ◌∷◌, ◌++◌, length,
  length-append, arith, append_assoc,
}
use chain_data_service.Models.{Transaction}
use chain_data_service.Blockchain.Batch.{DrainOrder}
use chain_data_service.Blockchain.Batch.Conserve.{held, IsOpen, held-add_transaction}
use chain_data_service.Blockchain.Services.{Services, chunks, fetch_all}
use chain_data_service.Blockchain.Services.Laws.{flatten-chunks, fetch_chunks, fetch_chunks-flatten}
use chain_data_service.Blockchain.Polling.{
  Poll, add_all, process_chunk, process_chunks, process_transaction_signatures,
}

module _ {F : Type 0} (services : Services F) (drain : DrainOrder F) (clock : ℕ → ℕ) where
  -- The manager holds `ts` more than before, and its channel is still open.
  record Gained (ts : List (Transaction F)) (p q : Poll F) : Type 0 where
    gained : Perm (held q.manager) (ts ++ held p.manager)
    still_open : IsOpen q.manager

  add_all-Gained :
      (ts : List (Transaction F)) (p : Poll F)
      → IsOpen p.manager
      → Gained ts p (add_all services drain clock ts p)
        × ((add_all services drain clock ts p).sent ≡ p.sent)
  unfolding add_all
  add_all-Gained [] p h = (record { gained = Perm.rfl; still_open = h }, refl)
  add_all-Gained (t ∷ ts) p h =
      let (one, still) = held-add_transaction drain (clock p.readings) t p.manager h in
      let (rest, same) = add_all-Gained ts _ still in
      (
        record {
          gained =
              Perm.trans rest.gained
                (Perm.trans (Perm.append_left ts one) (perm_middle ts (held p.manager)));
          still_open = rest.still_open;
        },
        same,
      )

  process_chunks-Gained :
      (chunks : List (List String)) (p : Poll F)
      → IsOpen p.manager
      → let (count, q) = process_chunks services drain clock chunks p in
        (count ≡ length (fetch_chunks services p.sent chunks))
        × Perm (held q.manager) (fetch_chunks services p.sent chunks ++ held p.manager)
  unfolding process_chunks process_chunk fetch_chunks
  process_chunks-Gained [] p h = (refl, Perm.rfl)
  process_chunks-Gained (chunk ∷ rest) p h =
      let ts = fetch_all services p.sent chunk in
      let begun : Poll F = record p { sent = p.sent + length chunk } in
      let (here, same) = add_all-Gained ts begun h in
      let (counted, later) =
        process_chunks-Gained rest (add_all services drain clock ts begun) here.still_open in
      let fc = fetch_chunks services (p.sent + length chunk) rest in
      let moved =
        subst
          (λ k.
            Perm
              (held
                (process_chunks services drain clock rest
                  (add_all services drain clock ts begun)).1.manager)
              (fetch_chunks services k rest
                ++ held (add_all services drain clock ts begun).manager))
          same later in
      (
        omega (
          arith,
          counted ∙ ap (λ k. length (fetch_chunks services k rest)) same,
          length-append ts fc,
        ),
        rw (append_assoc ts fc (held p.manager)) (
            Perm.trans moved
              (Perm.trans (Perm.append_left fc here.gained) (swap_blocks fc ts (held p.manager)))),
      )

  process_chunks-IsOpen :
      (chunks : List (List String)) (p : Poll F)
      → IsOpen p.manager
      → IsOpen (process_chunks services drain clock chunks p).1.manager
  unfolding process_chunks process_chunk
  process_chunks-IsOpen [] p h = h
  process_chunks-IsOpen (chunk ∷ rest) p h =
      process_chunks-IsOpen rest _
        (add_all-Gained (fetch_all services p.sent chunk)
          (record p { sent = p.sent + length chunk }) h).0.still_open

  pub process_transaction_signatures-IsOpen :
      (signatures : List String) (p : Poll F)
      → IsOpen p.manager
      → IsOpen (process_transaction_signatures services drain clock signatures p).1.manager
  unfolding process_transaction_signatures
  process_transaction_signatures-IsOpen signatures p h =
      process_chunks-IsOpen (chunks 10 signatures) p h

  -- While the channel is open, every transaction that the node yields for the signatures reaches
  -- the batch manager exactly once and nothing that it held is lost; the count that is returned is
  -- the number of these transactions.
  pub process_transaction_signatures-perm :
      (signatures : List String) (p : Poll F)
      → IsOpen p.manager
      → let (count, q) = process_transaction_signatures services drain clock signatures p in
        (count ≡ length (fetch_all services p.sent signatures))
        × Perm (held q.manager) (fetch_all services p.sent signatures ++ held p.manager)
  unfolding process_transaction_signatures
  process_transaction_signatures-perm signatures p h =
      let whole =
        fetch_chunks-flatten services p.sent (chunks 10 signatures)
        ∙ ap (fetch_all services p.sent) (flatten-chunks 9 signatures) in
      rw (← whole) (process_chunks-Gained (chunks 10 signatures) p h)
