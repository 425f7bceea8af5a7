-- ===== src/Engine/Scheduler/Requests.antt =====
-- Scheduler.finish (turboserve/engine/core/scheduler.py), of a request that stands in any queue.
use turboserve.Prelude.{
  ℕ, ◌+◌, ◌≤◌, ◌<◌, ◌≡◌, refl, sym, ap, subst, ◌∙◌, false, Option, List, [], length, inl, inr,
  arith, mem, Bool-cases, ok, Exec, continue-ok, if◌then◌else◌,
}
use turboserve.Prelude.Dict.{remove}
use turboserve.Prelude.Keys.{bytes_eq}
use turboserve.Engine.Sequence
use turboserve.Engine.Sequence.{Sequence, FinishReason, abort, finished, is_finished, num_tokens}
use turboserve.Engine.BlockManager.{BlockManager, Work}
use turboserve.Engine.BlockManager.Publication.{free}
use turboserve.Engine.BlockManager.Keeping.{free-IsKept}
use turboserve.Engine.WaitQueue.{remove_first}
use turboserve.Engine.WaitQueue.Contents.{IsQueue}
use turboserve.Engine.Scheduler.{Scheduler, write, on_work, detach, finish}
use turboserve.Engine.Scheduler.Holdings.{IsHolding, write-same, write-other}
use turboserve.Engine.Scheduler.Frames.{SameBlocks, touch, write-write}
use turboserve.Engine.Scheduler.Invariant.{
  IsSound, Idles, IsOrderly, IsScheduler, move-IsOrderly, tenant_in, tenant_in-write,
}
use turboserve.Engine.Scheduler.StepState.{places}
use turboserve.Engine.Scheduler.Retiring.{
  IsLeft, free-finish_reason, free_running-IsLeft, free_queued-IsLeft,
}
use turboserve.Engine.Scheduler.Detaching.{
  IsEnded, finish-IsEnded, IsGone, IsDetached, detach-IsDetached,
}

module _ (blake2b : List ℕ → List ℕ) where
  -- `free` of a sequence that stands in a queue, in the store where it is marked as finished.
  freed-IsLeft :
      (id : ℕ) (c : Scheduler) (t : Sequence)
      → IsScheduler c
      → SameBlocks (c.store id) t
      → t.num_computed_tokens ≤ num_tokens t
      → t.seq_id ≡ id
      → 0 < places c id
      → IsLeft blake2b id
          (write id t c.store)
          (if mem id c.running then remove_first id c.running else c.running)
          (free blake2b (record { manager = c.block_manager; seq = write id t c.store id }))
  freed-IsLeft id c t v b l n h =
      let held = touch id t v.holding b in
      let same = write-same id t c.store in
      let named = ap Sequence.seq_id same ∙ n in
      elim (Bool-cases (mem id c.running)) [
        | inl e ↦ rw e (
            free_running-IsLeft blake2b id held named (ground (arith, e, v.once id))
              (subst (λ s. Sequence.num_computed_tokens s ≤ num_tokens s) (sym same) l))
        | inr e ↦ rw e (
            free_queued-IsLeft blake2b id held named (ground (arith, e))
              (ap Sequence.block_table same ∙ b.same_table ∙ idle e))
      ]
    where
      idle : mem id c.running ≡ false → Sequence.block_table (c.store id) ≡ []
      idle e = elim (Bool-cases (mem id c.preempted)) [
        | inl f ↦ Idles.empty (v.resumes id (ground (arith, f)))
        | inr f ↦ Idles.empty (v.waits id (ground (arith, e, f, h)))
      ]

  -- A queued request is sound and not finished.
  pub queued :
      (id : ℕ) (c : Scheduler)
      → IsScheduler c
      → 0 < places c id
      → IsSound id (c.store id) × (is_finished (c.store id) ≡ false)
  queued id c v h = elim (Bool-cases (mem id c.running)) [
    | inl e ↦
        let r = v.runs id (ground (arith, e)) in (r.sound, ap Sequence.is_terminal r.status_is)
    | inr e ↦ elim (Bool-cases (mem id c.preempted)) [
      | inl f ↦
          let r = v.resumes id (ground (arith, f)) in (r.sound, ap Sequence.is_terminal r.status_is)
      | inr f ↦
          let r = v.waits id (ground (arith, e, f, h)) in
          (r.sound, ap Sequence.is_terminal r.status_is)
    ]
  ]

  -- The sequence is marked and freed, and then leaves its queue.
  module _ (id : ℕ) (c : Scheduler) (t : Sequence) where
    abbrev marked : Work
    marked = record { manager = c.block_manager; seq = write id t c.store id }

    abbrev freed : Work
    freed = (free blake2b marked).1

    abbrev freed_in : Scheduler
    freed_in = record c {
      block_manager = freed.manager;
      store = write id freed.seq (write id t c.store);
    }

    module _ (reason : FinishReason) (v : IsScheduler c) (h : 0 < places c id)
        (e : IsEnded reason (c.store id) t)
        (l : IsLeft blake2b id
          (write id t c.store)
          (if mem id c.running then remove_first id c.running else c.running)
          (free blake2b marked)) where
      written_there : write id t c.store id ≡ t
      written_there = write-same id t c.store

      freed_own : freed_in.store id ≡ freed.seq
      freed_own = write-same id freed.seq (write id t c.store)

      freed_store : freed_in.store ≡ write id freed.seq c.store
      freed_store = write-write id t freed.seq c.store

      freed_tenant : freed.seq.tenant_id ≡ tenant_in c.store id
      freed_tenant =
          (free-IsKept blake2b marked).same_tenant
          ∙ ap Sequence.tenant_id written_there
          ∙ e.same_tenant

      freed_tenants : tenant_in freed_in.store ≡ tenant_in c.store
      freed_tenants = ap tenant_in freed_store ∙ tenant_in-write id freed.seq c.store freed_tenant

      freed_named : freed.seq.seq_id ≡ id
      freed_named =
          (free-IsKept blake2b marked).same_id
          ∙ ap Sequence.seq_id written_there
          ∙ e.same_blocks.same_id
          ∙ (queued id c v h).0.named

      freed_request : freed.seq.request_id ≡ Sequence.request_id (c.store id)
      freed_request =
          (free-IsKept blake2b marked).same_request
          ∙ ap Sequence.request_id written_there
          ∙ e.same_request.request

      freed-IsDetached : IsDetached id freed_in (detach id freed_in)
      freed-IsDetached =
          detach-IsDetached id freed_in v.once
            (subst (λ g. IsQueue g c.waiting) (sym freed_tenants) v.queue)
            (ap Sequence.seq_id freed_own ∙ freed_named) h

      freed-IsOrderly :
          IsOrderly freed.manager
            (write id freed.seq c.store)
            (detach id freed_in).running
            (detach id freed_in).preempted
            (detach id freed_in).waiting
      freed-IsOrderly =
          let d = freed-IsDetached in
          let x = d.taken in
          let k = free-IsKept blake2b marked in
          move-IsOrderly id freed.seq c.block_manager freed.manager c.store c.running
            (detach id freed_in).running c.preempted (detach id freed_in).preempted c.waiting
            (detach id freed_in).waiting
            (record {
              holding =
                  subst (λ R. IsHolding freed.manager (write id freed.seq c.store) R)
                    (sym d.running_is)
                    (subst
                      (λ g.
                        IsHolding freed.manager g
                          (if mem id c.running then remove_first id c.running else c.running))
                      freed_store l.held);
              kept_size = k.same_size;
              kept_cache = k.same_cache;
              kept_tenant = freed_tenant;
              others = x.others;
              once = omega (arith, x.gone);
              runs = λ p. absurd (omega (arith, x.gone, p));
              resumes = λ p. absurd (omega (arith, x.gone, p));
              waits = λ p. absurd (omega (arith, x.gone, p));
              queue = subst (λ g. IsQueue g (detach id freed_in).waiting) freed_tenants x.queue;
            })
            v

      detached-IsGone : IsGone id reason c (detach id freed_in)
      detached-IsGone =
          let d = freed-IsDetached in
          let x = d.taken in
          let k = free-IsKept blake2b marked in
          let final : (detach id freed_in).store id ≡ freed.seq =
            ap (λ (g : ℕ → Sequence). g id) d.same_store ∙ freed_own in
          record {
            valid =
                subst
                  (λ (m : BlockManager).
                    IsOrderly m (detach id freed_in).store (detach id freed_in).running
                      (detach id freed_in).preempted (detach id freed_in).waiting)
                  (sym d.same_manager)
                  (subst
                    (λ g.
                      IsOrderly freed.manager g (detach id freed_in).running
                        (detach id freed_in).preempted (detach id freed_in).waiting)
                    (sym (d.same_store ∙ freed_store)) freed-IsOrderly);
            gone = x.gone;
            others = λ j n. (
              let (a, b, q) = x.others j n in omega (arith, a, b, q),
              ap (λ (g : ℕ → Sequence). g j) (d.same_store ∙ freed_store)
                  ∙ write-other id j freed.seq c.store n,
            );
            index_is =
                d.index_is
                ∙ ap (remove c.by_request) (ap Sequence.request_id freed_own ∙ freed_request);
            same_counter = d.same_counter;
            status_is =
                ap Sequence.status final
                ∙ k.status_is
                ∙ ap Sequence.status written_there
                ∙ e.status_is;
            reason_is =
                ap Sequence.finish_reason final
                ∙ free-finish_reason blake2b marked
                ∙ ap Sequence.finish_reason written_there
                ∙ e.reason_is;
            emptied = ap Sequence.block_table final ∙ l.emptied;
            same_request = record {
              request = ap Sequence.request_id final ∙ freed_request;
              prompt =
                  ap Sequence.prompt_token_ids final
                  ∙ k.same_prompt
                  ∙ ap Sequence.prompt_token_ids written_there
                  ∙ e.same_request.prompt;
              outputs =
                  ap Sequence.output_token_ids final
                  ∙ k.same_outputs
                  ∙ ap Sequence.output_token_ids written_there
                  ∙ e.same_request.outputs;
            };
          }

  -- Of a queued request, wherever it stands, in a scheduler whose queues and blocks are in order:
  -- `finish` raises nothing, keeps the order, takes the request out of its queue and out of the index,
  -- gives its blocks back, and leaves it finished for that reason, with its tokens. No other sequence
  -- changes its place or anything else.
  pub finish-IsGone :
      (id : ℕ) (reason : FinishReason) (stop : Option ℕ) (now : ℕ) (c : Scheduler)
      → IsScheduler c
      → 0 < places c id
      → ((finish blake2b id reason stop now c).0 ≡ ok tt)
        × IsGone id reason c (finish blake2b id reason stop now c).1
  unfolding finish
  finish-IsGone id reason stop now c v h =
      let t = Sequence.finish reason stop now (c.store id) in
      let (sound, live) = queued id c v h in
      let e = finish-IsEnded reason stop now (c.store id) live in
      let l =
        freed-IsLeft id c t v e.same_blocks
          (omega (
            arith,
            sound.computed,
            e.same_computed,
            ap length e.same_request.prompt,
            ap length e.same_request.outputs,
          ))
          (e.same_blocks.same_id ∙ sound.named) h in
      let ended : Scheduler = record c { store = write id t c.store } in
      let leaves : Unit {0} → Exec Scheduler (Unit {0}) = λ u freed.
        (ok tt, record (detach id freed) { num_finished = (detach id freed).num_finished + 1 }) in
      rw (continue-ok (on_work id (free blake2b) ended) leaves l.returned)
        (refl, counted_out (detached-IsGone id c t reason v h e l))
    where
      counted_out :
          {d : Scheduler} {n : ℕ}
          → IsGone id reason c d
          → IsGone id reason c (record d { num_finished = n })
      counted_out g = record {
        valid = g.valid;
        gone = g.gone;
        others = g.others;
        index_is = g.index_is;
        same_counter = g.same_counter;
        status_is = g.status_is;
        reason_is = g.reason_is;
        emptied = g.emptied;
        same_request = g.same_request;
      }
