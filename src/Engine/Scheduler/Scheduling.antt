-- ===== src/Engine/Scheduler/Scheduling.antt =====
-- Scheduler.schedule as a whole.
use turboserve.Prelude.{
  ℕ, ◌+◌, ◌≤◌, ◌<◌, ◌≡◌, refl, sym, subst, ◌∙◌, List, [], ◌∷◌, ◌++◌, length, length-append, none,
  some, arith, count, count-nil, count-cons, Result, ok, err, continue-ok,
}
use turboserve.Engine.BlockManager.Publication.{publish_computed_blocks}
use turboserve.Engine.BlockManager.Keeping.{publish-IsKept}
use turboserve.Engine.AttnMetadata.{AttnMetadata, validate}
use turboserve.Engine.SchedulerOutput.{
  ScheduledSeq, SchedulerOutput, num_batched_tokens, num_seqs, sequences, build_attn_metadata,
}
use turboserve.Engine.SchedulerOutput.Batch.{
  AreShares, AreShares-append, build_attn_metadata-validate,
}
use turboserve.Engine.Scheduler.{Scheduler, SchedulerConfig, work_of}
use turboserve.Engine.Scheduler.Invariant.{IsScheduler}
use turboserve.Engine.Scheduler.Moves.{publish-IsOrderly}
use turboserve.Engine.Scheduler.Step.{StepState, num_tokens_of}
use turboserve.Engine.Scheduler.Schedule.{
  schedule, publish_all, batch_of, first_state, finished_step, output_of, schedule_running,
  schedule_admissions,
}
use turboserve.Engine.Scheduler.StepState.{
  IsStep, IsCarried, IsCarried-refl, IsCarried-trans, SameRequest-refl, ids_of,
}
use turboserve.Engine.Scheduler.Running.{Rounds, schedule_running-Rounds}
use turboserve.Engine.Scheduler.Rounds.{schedule_admissions-Rounds}

-- What a step promises.
pub record IsBatch (c : Scheduler) (r : Result SchedulerOutput × Scheduler) : Type 0 where
  pub out : SchedulerOutput
  pub returned : r.0 ≡ ok out
  pub valid : IsScheduler r.1
  -- Every request is still queued, once, with its tokens.
  pub carried : IsCarried c r.1
  pub within_tokens : num_batched_tokens out ≤ c.config.max_num_batched_tokens
  pub within_seqs : num_seqs out ≤ c.config.max_num_seqs
  pub once : (k : ℕ) → count k (sequences out) ≤ 1
  pub in_running : (k : ℕ) → 0 < count k (sequences out) → 0 < count k r.1.running
  pub fit : AreShares c.block_manager.block_size out.scheduled
  pub sized : out.num_prefill_seqs + out.num_decode_seqs ≡ length out.scheduled

module _ (blake2b : List ℕ → List ℕ) where
  record Publishes (c : Scheduler) (r : Result (Unit {0}) × Scheduler) : Type 0 where
    returned : r.0 ≡ ok tt
    valid : IsScheduler r.1
    carried : IsCarried c r.1
    same_running : r.1.running ≡ c.running
    same_size : r.1.block_manager.block_size ≡ c.block_manager.block_size

  publish_all-Publishes :
      (ids : List ℕ) (c : Scheduler)
      → IsScheduler c
      → ((k : ℕ) → 0 < count k ids → 0 < count k c.running)
      → Publishes c (publish_all blake2b ids c)
  unfolding publish_all
  publish_all-Publishes [] c v h = record {
    returned = refl;
    valid = v;
    carried = IsCarried-refl c;
    same_running = refl;
    same_size = refl;
  }
  publish_all-Publishes (id ∷ ids) c v h =
      let ((n, e), o) = publish-IsOrderly id v (h id (at_head id ids)) blake2b in
      let c' : Scheduler = record c {
        block_manager = (publish_computed_blocks blake2b (c.store id) c.block_manager).1;
      } in
      let rest =
        publish_all-Publishes ids c' o (λ k l. h k (omega (arith, count-cons k id ids, l))) in
      rw
        (continue-ok ((publish_computed_blocks blake2b (c.store id) c.block_manager).0, c')
          (λ n. publish_all blake2b ids) e)
        (record {
          returned = rest.returned;
          valid = rest.valid;
          carried =
              IsCarried-trans
                (record {
                  same_config = refl;
                  same_index = refl;
                  same_counter = refl;
                  requests = λ k. SameRequest-refl (c.store k);
                  same_places = λ k. refl;
                })
                rest.carried;
          same_running = rest.same_running;
          same_size = rest.same_size ∙ (publish-IsKept blake2b (work_of id c)).same_size;
        })
    where
      at_head : (i : ℕ) (l : List ℕ) → 0 < count i (i ∷ l)
      at_head i l = ground (arith, count-cons i i l)

  pub first-IsStep :
      (c : Scheduler)
      → IsScheduler c
      → IsStep c.config c.block_manager.block_size (first_state blake2b c)
  unfolding num_tokens_of
  first-IsStep c v = record {
    orderly = v;
    same_config = refl;
    same_size = refl;
    tokens = omega arith;
    seqs = omega arith;
    listed = λ k. omega (arith, count-nil k);
    once = λ k. omega (arith, count-nil k);
    in_running = λ k l. absurd (omega (arith, count-nil k, l));
    prefills_fit = tt;
    decodes_fit = tt;
  }

  batch_of-Rounds :
      (now : ℕ) (c : Scheduler)
      → IsScheduler c
      → Rounds blake2b c.config c.block_manager.block_size
          (first_state blake2b c)
          (batch_of blake2b now (first_state blake2b c))
  unfolding batch_of
  batch_of-Rounds now c v =
      let a =
        schedule_running-Rounds blake2b c.config c.block_manager.block_size c.running
          (first_state blake2b c) (first-IsStep c v) (λ k l. omega (arith, l)) (λ k l. count-nil k)
          (λ k. omega (arith, v.once k)) in
      let st = (schedule_running blake2b c.running (first_state blake2b c)).1 in
      let b =
        schedule_admissions-Rounds blake2b c.config c.block_manager.block_size now st.budget.seqs st
          a.step (omega arith) in
      rw
        (continue-ok (schedule_running blake2b c.running (first_state blake2b c))
          (λ u st'. schedule_admissions blake2b st'.budget.seqs now st') a.returned)
        (record {
          returned = b.returned;
          step = b.step;
          carried = IsCarried-trans a.carried b.carried;
        })

  ids_of-append :
      (k : ℕ) (xs ys : List ScheduledSeq)
      → count k (ids_of (xs ++ ys)) ≡ count k (ids_of xs) + count k (ids_of ys)
  ids_of-append k [] ys = omega (arith, count-nil k)
  ids_of-append k (x ∷ xs) ys = omega (
    arith,
    ids_of-append k xs ys,
    count-cons k x.seq_id (ids_of xs),
    count-cons k x.seq_id (ids_of (xs ++ ys)),
  )

  finished-IsBatch :
      (c : Scheduler) (r : Result (Unit {0}) × StepState)
      → Rounds blake2b c.config c.block_manager.block_size (first_state blake2b c) r
      → IsBatch c (finished_step blake2b r)
  unfolding finished_step
  finished-IsBatch c (err e, st) x = cc x.returned
  finished-IsBatch c (ok u, st) x =
      let s = x.step in
      let listed = λ (k : ℕ). ids_of-append k st.prefills st.decodes ∙ s.listed k in
      record {
        out = output_of blake2b st;
        returned = refl;
        valid = s.orderly;
        carried = record {
          same_config = x.carried.same_config;
          same_index = x.carried.same_index;
          same_counter = x.carried.same_counter;
          requests = x.carried.requests;
          same_places = x.carried.same_places;
        };
        within_tokens = omega (arith, s.tokens);
        within_seqs = omega (arith, s.seqs, length-append st.prefills st.decodes);
        once = λ k. omega (arith, listed k, s.once k);
        in_running = λ k l. s.in_running k (omega (arith, listed k, l));
        fit =
            AreShares-append c.block_manager.block_size st.prefills st.decodes s.prefills_fit
              s.decodes_fit;
        sized = omega (arith, length-append st.prefills st.decodes);
      }

  -- Of a scheduler whose queues and blocks are in order, `schedule` comes to an end within the rounds it
  -- is given and raises nothing. It leaves the queues and blocks in order, with every request queued as
  -- often as before, under its name and with its tokens. The batch keeps within the budgets of tokens
  -- and of sequences, has no sequence twice and only running ones, counts its prefills and decodes, and
  -- each entry's tokens and slots are as many as it computes, and its blocks cover its context.
  pub schedule-IsBatch :
      (now : ℕ) (c : Scheduler) → IsScheduler c → IsBatch c (schedule blake2b now c)
  unfolding schedule
  schedule-IsBatch now c v =
      let p = publish_all-Publishes c.running c v (λ k l. l) in
      let c' = (publish_all blake2b c.running c).1 in
      let b =
        finished-IsBatch c' (batch_of blake2b now (first_state blake2b c'))
          (batch_of-Rounds now c' p.valid) in
      rw (continue-ok (publish_all blake2b c.running c) _ p.returned) (record {
        out = b.out;
        returned = b.returned;
        valid = b.valid;
        carried = IsCarried-trans p.carried b.carried;
        within_tokens =
            subst (λ (g : SchedulerConfig). num_batched_tokens b.out ≤ g.max_num_batched_tokens)
              p.carried.same_config b.within_tokens;
        within_seqs =
            subst (λ (g : SchedulerConfig). num_seqs b.out ≤ g.max_num_seqs) p.carried.same_config
              b.within_seqs;
        once = b.once;
        in_running = b.in_running;
        fit = subst (λ n. AreShares n b.out.scheduled) p.same_size b.fit;
        sized = b.sized;
      })

  -- If a scheduler whose queues and blocks are in order schedules a batch that is not empty, then
  -- `build_attn_metadata` of the batch raises nothing, and what it builds passes `validate` with the
  -- manager's block size.
  pub schedule-validate :
      (now : ℕ) (c : Scheduler) (out : SchedulerOutput)
      → IsScheduler c
      → (schedule blake2b now c).0 ≡ ok out
      → 0 < num_seqs out
      → (m : AttnMetadata) × (build_attn_metadata c.block_manager.block_size none out ≡ ok m)
        × (validate (some c.block_manager.block_size) m ≡ ok tt)
  schedule-validate now c out v e l =
      let x = schedule-IsBatch now c v in
      let same = ok-inj (sym x.returned ∙ e) in
      build_attn_metadata-validate c.block_manager.block_size out v.sized l
        (subst (λ o. AreShares c.block_manager.block_size (SchedulerOutput.scheduled o)) same x.fit)
        (subst
          (λ (o : SchedulerOutput). o.num_prefill_seqs + o.num_decode_seqs ≡ length o.scheduled)
          same x.sized)
    where
      ok-inj : {a b : SchedulerOutput} → ok a ≡ ok b → a ≡ b
      ok-inj p = cc p
