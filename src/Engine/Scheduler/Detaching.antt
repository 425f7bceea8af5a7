-- ===== src/Engine/Scheduler/Detaching.antt =====
-- How a request leaves the queues and the index: Scheduler._detach, after Sequence.finish
-- (turboserve/engine/core/scheduler.py, sequence.py).
use turboserve.Prelude.{
  ℕ, ◌+◌, ◌≤◌, ◌<◌, ◌≡◌, ◌≢◌, refl, ap, false, Option, some, List, [], ◌∷◌, inl, inr, arith, count,
  count-nil, count-cons, mem, Bool-cases, ==_iff, if◌then◌else◌, ◌==◌,
}
use turboserve.Prelude.Dict.{remove}
use turboserve.Prelude.Keys.{bytes_eq}
use turboserve.Engine.Sequence
use turboserve.Engine.Sequence.{Sequence, FinishReason, abort, finished, is_finished, num_tokens}
use turboserve.Engine.WaitQueue.{WaitQueue, contents, remove_first, remove_seq}
use turboserve.Engine.WaitQueue.Contents.{IsQueue, count-remove_first, remove_seq-IsExchange}
use turboserve.Engine.Scheduler.{Scheduler, detach}
use turboserve.Engine.Scheduler.Frames.{SameBlocks}
use turboserve.Engine.Scheduler.Invariant.{IsScheduler, tenant_in}
use turboserve.Engine.Scheduler.StepState.{places, SameRequest}

-- What `Sequence.finish` makes of a sequence that is not finished.
pub record IsEnded (reason : FinishReason) (s t : Sequence) : Type 0 where
  pub same_blocks : SameBlocks s t
  pub same_computed : t.num_computed_tokens ≡ s.num_computed_tokens
  pub same_request : SameRequest s t
  pub same_tenant : t.tenant_id ≡ s.tenant_id
  pub status_is : t.status ≡ finished
  pub reason_is : t.finish_reason ≡ some reason

pub finish-IsEnded :
    (reason : FinishReason) (stop : Option ℕ) (now : ℕ) (s : Sequence)
    → is_finished s ≡ false
    → IsEnded reason s (Sequence.finish reason stop now s)
unfolding Sequence.finish
finish-IsEnded reason stop now s e = rw e (record {
  same_blocks = record { same_id = refl; same_table = refl; progress = omega arith };
  same_computed = refl;
  same_request = record { request = refl; prompt = refl; outputs = refl };
  same_tenant = refl;
  status_is = refl;
  reason_is = refl;
})

-- A request that has left: its sequence is finished and holds no block, and no other one is touched.
pub record IsGone (id : ℕ) (reason : FinishReason) (c d : Scheduler) : Type 0 where
  pub valid : IsScheduler d
  pub gone : places d id ≡ 0
  pub others : (k : ℕ) → id ≢ k → (places d k ≡ places c k) × (d.store k ≡ c.store k)
  pub index_is : d.by_request ≡ remove c.by_request (Sequence.request_id (c.store id))
  pub same_counter : d.seq_counter ≡ c.seq_counter
  pub status_is : Sequence.status (d.store id) ≡ finished
  pub reason_is : Sequence.finish_reason (d.store id) ≡ some reason
  pub emptied : Sequence.block_table (d.store id) ≡ []
  pub same_request : SameRequest (c.store id) (d.store id)

-- What the queues are after a request has left.
pub record IsTaken (id : ℕ) (store : ℕ → Sequence) (R R' P P' : List ℕ) (Q Q' : WaitQueue)
    : Type 0 where
  pub others :
      (k : ℕ)
      → id ≢ k
      → (count k R' ≡ count k R)
        × (count k P' ≡ count k P)
        × (count k (contents Q') ≡ count k (contents Q))
  pub gone : count id R' + count id P' + count id (contents Q') ≡ 0
  pub queue : IsQueue (tenant_in store) Q'

-- A request that is queued somewhere, and what `_detach` does.
pub record IsDetached (id : ℕ) (c d : Scheduler) : Type 0 where
  pub taken : IsTaken id c.store c.running d.running c.preempted d.preempted c.waiting d.waiting
  pub same_manager : d.block_manager ≡ c.block_manager
  pub same_store : d.store ≡ c.store
  pub running_is : d.running ≡ (if mem id c.running then remove_first id c.running else c.running)
  pub index_is : d.by_request ≡ remove c.by_request (Sequence.request_id (c.store id))
  pub same_counter : d.seq_counter ≡ c.seq_counter

pub detach-IsDetached :
    (id : ℕ) (c : Scheduler)
    → ((k : ℕ) → count k c.running + count k c.preempted + count k (contents c.waiting) ≤ 1)
    → IsQueue (tenant_in c.store) c.waiting
    → Sequence.seq_id (c.store id) ≡ id
    → 0 < places c id
    → IsDetached id c (detach id c)
unfolding detach
detach-IsDetached id c o q n h = elim (Bool-cases (mem id c.running)) [
  | inl e ↦
      let there : 0 < count id c.running = ground (arith, e) in
      rw e (record {
        taken = record {
          others = λ k g.
              (ground (arith, count-remove_first id k c.running there, ==_iff id k, g), refl, refl);
          gone = ground (arith, count-remove_first id id c.running there, o id);
          queue = q;
        };
        same_manager = refl;
        same_store = refl;
        running_is = rw e refl;
        index_is = refl;
        same_counter = refl;
      })
  | inr e ↦ elim (Bool-cases (mem id c.preempted)) [
    | inl f ↦
        let there : 0 < count id c.preempted = ground (arith, f) in
        rw (e, f)
          (record {
            taken = record {
              others = λ k g. (
                refl,
                ground (arith, count-remove_first id k c.preempted there, ==_iff id k, g),
                refl,
              );
              gone = ground (arith, count-remove_first id id c.preempted there, o id);
              queue = q;
            };
            same_manager = refl;
            same_store = refl;
            running_is = rw e refl;
            index_is = refl;
            same_counter = refl;
          })
    | inr f ↦
        let there : 0 < count (Sequence.seq_id (c.store id)) (contents c.waiting) =
          ground (arith, e, f, h, ap (λ j. count j (contents c.waiting)) n) in
        let (b, x) =
          remove_seq-IsExchange (tenant_in c.store) (c.store id) c.waiting
            (ap (tenant_in c.store) n) there q in
        let left : (k : ℕ)
            → count k (contents (remove_seq (c.store id) c.waiting).1) + (if id == k then 1 else 0)
              ≡ count k (contents c.waiting) =
          λ k.
            omega
              (arith, x.counted k, ap (λ j. count k (j ∷ [])) n, count-cons k id [], count-nil k) in
        rw (e, f)
          (record {
            taken = record {
              others = λ k g. (refl, refl, ground (arith, left k, ==_iff id k, g));
              gone = ground (arith, left id, e, f, o id);
              queue = x.queue;
            };
            same_manager = refl;
            same_store = refl;
            running_is = rw e refl;
            index_is = refl;
            same_counter = refl;
          })
  ]
]
