-- ===== src/Blockchain/Batch/Conserve.antt =====
-- The batch manager neither loses nor repeats a transaction while the channel is open.
use mathlib.Core.List.{Perm, Permᴰ, Perm-prop, perm_middle}
use mathlib.Core.List.Perm
use mathlib.Core.Logic.{∥∥₁_elim}
use chain_data_service.Base.{
  ℕ, String, true, ◌≡◌, refl, ◌∙◌, sym, List, [], ◌∷◌, ◌++◌, map, flatten, append_assoc, append-nil,
  inl, inr, Bool-cases, arith, str_eq, swap_blocks,
}
use chain_data_service.Models.{Transaction}
use chain_data_service.Blockchain.Batch.{
  Pending, DrainOrder, Channel, BatchManager, Event, add, force, tick, cancelled, push_pending,
  push_transaction, send, collect_transactions_for_flush, flush, add_transaction,
  perform_flush_check, force_flush, run_loop, start, should_flush,
}

module _ {F : Type 0} where
  -- Every transaction in the pending map.
  abbrev pub all_pending : Pending F → List (Transaction F)
  all_pending p = flatten (map (λ e. e.1) p)

  all_pending-perm_d : {p q : Pending F} → Permᴰ p q → Perm (all_pending p) (all_pending q)
  unfolding flatten
  all_pending-perm_d Permᴰ.nil = Perm.nil
  all_pending-perm_d (Permᴰ.cons {b = y} e r) = rw e (Perm.append_left y.1 (all_pending-perm_d r))
  all_pending-perm_d (Permᴰ.swap {a' = x} {b' = y} {l = l} e f) =
      rw (e, f) (swap_blocks y.1 x.1 (all_pending l))
  all_pending-perm_d (Permᴰ.trans r s) = Perm.trans (all_pending-perm_d r) (all_pending-perm_d s)

  pub all_pending-perm : {p q : Pending F} → Perm p q → Perm (all_pending p) (all_pending q)
  all_pending-perm r = ∥∥₁_elim r Perm-prop all_pending-perm_d

  pub push_pending-perm :
      (a : String) (t : Transaction F) (p : Pending F)
      → Perm (all_pending (push_pending a t p)) (t ∷ all_pending p)
  unfolding push_pending flatten
  push_pending-perm a t [] = Perm.rfl
  push_pending-perm a t ((b, ts) ∷ p) = elim (Bool-cases (str_eq b a)) [
    | inl hit ↦ rw (hit, append_assoc) (perm_middle ts _)
    | inr miss ↦
        rw miss (Perm.trans (Perm.append_left ts (push_pending-perm a t p)) (perm_middle ts _))
  ]

  -- What waits in the buffer and in the channel.
  unfoldable pub held : BatchManager F → List (Transaction F)
  held self = flatten self.worker_sender.queue ++ all_pending self.buffer.pending

  abbrev pub IsOpen : BatchManager F → Type 0
  IsOpen self = self.worker_sender.is_open ≡ true

  pub flatten-snoc :
      (qs : List (List (Transaction F))) (ts : List (Transaction F))
      → flatten (qs ++ ts ∷ []) ≡ flatten qs ++ ts
  unfolding flatten
  flatten-snoc [] ts = append-nil ts
  flatten-snoc (q ∷ qs) ts = rw (flatten-snoc qs ts) (sym (append_assoc q _ ts))

  queue-send :
      (ts : List (Transaction F)) (c : Channel F)
      → c.is_open ≡ true
      → flatten (send ts c).queue ≡ flatten c.queue ++ ts
  unfolding send
  queue-send [] c h = sym (append-nil _)
  queue-send (t ∷ ts) c h = rw h (flatten-snoc c.queue (t ∷ ts))

  is_open-send : (ts : List (Transaction F)) (c : Channel F) → (send ts c).is_open ≡ c.is_open
  unfolding send
  is_open-send [] c = refl
  is_open-send (t ∷ ts) c = ground arith

  module _ (order : DrainOrder F) where
    pub held-flush :
        (now : ℕ) (self : BatchManager F)
        → IsOpen self
        → Perm (held (flush order now self)) (held self)
    unfolding held flush collect_transactions_for_flush flatten
    held-flush now self h =
        let drained = all_pending (order.drain self.buffer.pending) in
        rw (append-nil, queue-send drained self.worker_sender h)
          (Perm.append_left (flatten self.worker_sender.queue)
            (all_pending-perm (order.drain-perm self.buffer.pending)))

    IsOpen-flush : (now : ℕ) (self : BatchManager F) → IsOpen self → IsOpen (flush order now self)
    unfolding flush collect_transactions_for_flush
    IsOpen-flush now self h = is_open-send _ self.worker_sender ∙ h

    held-push :
        (t : Transaction F) (self : BatchManager F)
        → Perm (held (record self { buffer = push_transaction t self.buffer })) (t ∷ held self)
    unfolding held push_transaction
    held-push t self =
        Perm.trans (Perm.append_left _ (push_pending-perm t.source_address t self.buffer.pending))
          (perm_middle (flatten self.worker_sender.queue) _)

    pub held-add_transaction :
        (now : ℕ) (t : Transaction F) (self : BatchManager F)
        → IsOpen self
        → Perm (held (add_transaction order now t self)) (t ∷ held self)
          × IsOpen (add_transaction order now t self)
    unfolding add_transaction
    held-add_transaction now t self h =
        let pushed = record self { buffer = push_transaction t self.buffer } in
        elim (Bool-cases (should_flush self.config now pushed.buffer)) [
          | inl due ↦
              rw due
                (Perm.trans (held-flush now pushed h) (held-push t self), IsOpen-flush now pushed h)
          | inr early ↦ rw early (held-push t self, h)
        ]

    held-perform_flush_check :
        (now : ℕ) (self : BatchManager F)
        → IsOpen self
        → Perm (held (perform_flush_check order now self)) (held self)
          × IsOpen (perform_flush_check order now self)
    unfolding perform_flush_check
    held-perform_flush_check now self h =
        ground (arith, Perm.refl (held self), held-flush now self h, IsOpen-flush now self h)

    -- The transactions that are added until the loop ends.
    unfoldable pub added : List (Event F) → List (Transaction F)
    added [] = []
    added (add now t ∷ es) = t ∷ added es
    added (force now ∷ es) = added es
    added (tick now ∷ es) = added es
    added (cancelled now ∷ es) = []

    held-run_loop :
        (es : List (Event F)) (self : BatchManager F)
        → IsOpen self
        → Perm (held (run_loop order es self)) (added es ++ held self)
    unfolding run_loop added force_flush
    held-run_loop [] self h = Perm.rfl
    held-run_loop (add now t ∷ es) self h =
        let (moved, still) = held-add_transaction now t self h in
        Perm.trans (held-run_loop es _ still)
          (Perm.trans (Perm.append_left (added es) moved) (perm_middle (added es) (held self)))
    held-run_loop (force now ∷ es) self h =
        Perm.trans (held-run_loop es _ (IsOpen-flush now self h))
          (Perm.append_left (added es) (held-flush now self h))
    held-run_loop (tick now ∷ es) self h =
        let (moved, still) = held-perform_flush_check now self h in
        Perm.trans (held-run_loop es _ still) (Perm.append_left (added es) moved)
    held-run_loop (cancelled now ∷ es) self h = (held-perform_flush_check now self h).0

    -- While the channel is open, whatever is called in whatever order, what waits in the buffer and
    -- in the channel in the end is what waited at the start and what was added, each as often.
    pub start-perm :
        (now : ℕ) (es : List (Event F)) (self : BatchManager F)
        → IsOpen self
        → Perm (held (start order now es self)) (added es ++ held self)
    unfolding start
    start-perm now es self h =
        let (moved, still) = held-perform_flush_check now self h in
        Perm.trans (held-run_loop es _ still) (Perm.append_left (added es) moved)
