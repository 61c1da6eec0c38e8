-- ===== src/Blockchain/System/Sound.antt =====
-- What each small step of a batch manager and its pool keeps of the transactions that it has got.
use mathlib.Core.List.{Perm, perm_middle}
use mathlib.Core.List.Perm
use chain_data_service.Base.{
  ℕ, zero, suc, ◌<◌, List, [], ◌∷◌, ◌++◌, flatten, ◌≡◌, refl, sym, subst, ap, ◌∙◌, append_assoc,
  append-nil, swap_blocks, arith, length, length-append, inl, inr, Bool-cases,
}
use chain_data_service.Models.{Transaction}
use chain_data_service.Blockchain.Batch.{
  DrainOrder, collect_transactions_for_flush, push_transaction, should_flush,
}
use chain_data_service.Blockchain.Batch
use chain_data_service.Blockchain.Batch.Conserve.{
  all_pending, all_pending-perm, push_pending-perm, flatten-snoc,
}
use chain_data_service.Blockchain.Workers.{Pool}
use chain_data_service.Blockchain.Workers
use chain_data_service.Blockchain.Workers.Order.{
  IsConserved, Step-order, Step-IsConserved, processing-spawn,
}
use chain_data_service.Blockchain.System.Sending.{
  Side, Progress, deliver, refuse, work, open_side, IsIdle, collect, check_section, add_section,
}

-- The number of workers, by the place of one of them.
length-place :
    {W : Type 0} (before after : List W) (w : W)
    → length (before ++ w ∷ after) ≡ suc (length (before ++ after))
length-place [] after w = refl
length-place (x ∷ before) after w = ap suc (length-place before after w)

length-place_eq :
    {W : Type 0} (ws before after : List W) (v w : W)
    → ws ≡ before ++ v ∷ after
    → length (before ++ w ∷ after) ≡ length ws
length-place_eq ws before after v w e =
    length-place before after w ∙ sym (ap length e ∙ length-place before after v)

length-spawn : (B : Type 0) (n : ℕ) → length (Workers.spawn {B = B} n) ≡ n
unfolding Workers.spawn
length-spawn B zero = refl
length-spawn B (suc n) = ap suc (length-spawn B n)

module _ {F : Type 0} where
  move_out :
      (t : Transaction F) (a b c d : List (Transaction F))
      → Perm (a ++ (b ++ (c ++ t ∷ d))) (t ∷ a ++ (b ++ (c ++ d)))
  move_out t a b c d =
      let out_of_b = Perm.trans (Perm.append_left b (perm_middle c d)) (perm_middle b (c ++ d)) in
      Perm.trans (Perm.append_left a out_of_b) (perm_middle a (b ++ (c ++ d)))

  -- All that a side has got, by the batches that its workers took and those in the channel.
  unfoldable pub carried : Side F → List (Transaction F)
  carried s =
      flatten (s.pool.taken ++ s.pool.queue)
      ++ (s.lost ++ (s.sending ++ all_pending s.buffer.pending))

  module _ (order : DrainOrder F) where
    carried-collect :
        (now : ℕ) (s : Side F) → IsIdle s → Perm (carried (collect order now s)) (carried s)
    unfolding carried collect collect_transactions_for_flush flatten
    carried-collect now s idle =
        rw (idle, append-nil)
          (Perm.append_left (flatten (s.pool.taken ++ s.pool.queue))
            (Perm.append_left s.lost (all_pending-perm (order.drain-perm s.buffer.pending))))

    carried-check_section :
        (now : ℕ) (s : Side F) → IsIdle s → Perm (carried (check_section order now s)) (carried s)
    unfolding check_section
    carried-check_section now s idle =
        ground (arith, Perm.refl (carried s), carried-collect now s idle)

    carried-push :
        (t : Transaction F) (s : Side F)
        → Perm (carried (record s { buffer = push_transaction t s.buffer })) (t ∷ carried s)
    unfolding carried push_transaction
    carried-push t s =
        let lifted =
          Perm.append_left s.lost
            (Perm.append_left s.sending (push_pending-perm t.source_address t s.buffer.pending)) in
        Perm.trans (Perm.append_left (flatten (s.pool.taken ++ s.pool.queue)) lifted)
          (move_out t (flatten (s.pool.taken ++ s.pool.queue)) s.lost s.sending _)

    carried-add_section :
        (now : ℕ) (t : Transaction F) (s : Side F)
        → IsIdle s
        → Perm (carried (add_section order now t s)) (t ∷ carried s)
    unfolding add_section
    carried-add_section now t s idle =
        let pushed = record s { buffer = push_transaction t s.buffer } in
        elim (Bool-cases (should_flush s.config now pushed.buffer)) [
          | inl due ↦ rw due (Perm.trans (carried-collect now pushed idle) (carried-push t s))
          | inr early ↦ rw early (carried-push t s)
        ]

  carried-Progress : {s u : Side F} → Progress s u → Perm (carried u) (carried s)
  unfolding carried
  carried-Progress {s} (deliver full alive room) =
      rw
        (
          ← append_assoc s.pool.taken s.pool.queue (s.sending ∷ []),
          flatten-snoc (s.pool.taken ++ s.pool.queue) s.sending,
          append_assoc,
        )
        (Perm.append_left (flatten (s.pool.taken ++ s.pool.queue)) (swap_blocks s.sending s.lost _))
  carried-Progress {s} (refuse full none_left) = rw append_assoc Perm.rfl
  carried-Progress {s} (work {q = q} step silent) =
      rw (Step-order step ∙ ap (λ l. (s.pool.taken ++ s.pool.queue) ++ l) silent ∙ append-nil _)
        Perm.rfl

  Step-workers :
      {p q : Pool (List (Transaction F))} → Workers.Step p q → length q.workers ≡ length p.workers
  Step-workers (Workers.send b open_ alive room) = refl
  Step-workers (Workers.get_sender open_) = refl
  Step-workers (Workers.drop_sender n e) = refl
  Step-workers (Workers.receive before after b rest w e) = length-place_eq _ before after _ _ w
  Step-workers (Workers.finish before after b w) = length-place_eq _ before after _ _ w
  Step-workers (Workers.stop before after w e s) = length-place_eq _ before after _ _ w

  -- What stays true of a side that has got some transactions.
  pub record IsSound (worker_count : ℕ) (got : List (Transaction F)) (s : Side F) : Type 0 where
    pub whole : Perm (carried s) got
    pub handed_on : IsConserved s.pool
    pub staffed : length s.pool.workers ≡ worker_count
    pub kept : 0 < worker_count → s.lost ≡ []

  module _ (worker_count : ℕ) (got : List (Transaction F)) where
    pub open_side-IsSound :
        (now : ℕ) (config : Batch.BatchConfig)
        → IsSound worker_count [] (open_side now config worker_count)
    unfolding open_side carried flatten Batch.new
    open_side-IsSound now config = record {
      whole = Perm.nil;
      handed_on = record {
        accounted = rw (processing-spawn worker_count) Perm.rfl;
        bounded = omega arith;
      };
      staffed = length-spawn _ worker_count;
      kept = λ h. refl;
    }

    pub Progress-IsSound :
        {s u : Side F} → Progress s u → IsSound worker_count got s → IsSound worker_count got u
    Progress-IsSound {s} (deliver full alive room) v =
        let before = v.handed_on in
        record {
          whole = Perm.trans (carried-Progress (deliver full alive room)) v.whole;
          handed_on = record {
            accounted = before.accounted;
            bounded = omega (arith, length-append s.pool.queue (s.sending ∷ []));
          };
          staffed = v.staffed;
          kept = v.kept;
        }
    Progress-IsSound {s} (refuse full none_left) v = record {
      whole = Perm.trans (carried-Progress (refuse full none_left)) v.whole;
      handed_on = v.handed_on;
      staffed = v.staffed;
      kept = λ h. absurd (omega (arith, v.staffed, ap length none_left));
    }
    Progress-IsSound {s} (work step silent) v = record {
      whole = Perm.trans (carried-Progress (work step silent)) v.whole;
      handed_on = Step-IsConserved step v.handed_on;
      staffed = Step-workers step ∙ v.staffed;
      kept = v.kept;
    }

  -- A section under the lock changes neither the pool nor what was lost.
  module _ (order : DrainOrder F) (worker_count now : ℕ) (got : List (Transaction F)) (s : Side F)
      (idle : IsIdle s) (v : IsSound worker_count got s) where
    moved-IsSound :
        {more : List (Transaction F)} (u : Side F)
        → Perm (carried u) more
        → (u.pool ≡ s.pool) × (u.lost ≡ s.lost)
        → IsSound worker_count more u
    moved-IsSound u whole (same_pool, same_lost) = record {
      whole = whole;
      handed_on = subst IsConserved (sym same_pool) v.handed_on;
      staffed = ap (λ (p : Pool (List (Transaction F))). length p.workers) same_pool ∙ v.staffed;
      kept = λ h. same_lost ∙ v.kept h;
    }

    pub check_section-IsSound : IsSound worker_count got (check_section order now s)
    unfolding check_section
    check_section-IsSound =
        moved-IsSound (check_section order now s)
          (Perm.trans (carried-check_section order now s idle) v.whole) (ground arith, ground arith)

    pub add_section-IsSound :
        (t : Transaction F) → IsSound worker_count (t ∷ got) (add_section order now t s)
    unfolding add_section
    add_section-IsSound t =
        moved-IsSound (add_section order now t s)
          (Perm.trans (carried-add_section order now t s idle) (Perm.cons t v.whole))
          (ground arith, ground arith)
