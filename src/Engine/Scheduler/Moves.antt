-- ===== src/Engine/Scheduler/Moves.antt =====
-- The block manager's methods, called for one of a scheduler's sequences.
use turboserve.Prelude.{
  ℕ, ◌+◌, ◌≤◌, ◌<◌, ◌≡◌, refl, ap, subst, ◌∙◌, List, [], ◌∷◌, ◌++◌, length, arith, count, count-nil,
  count-cons, count-append, ==_iff, ok,
}
use turboserve.Engine.Sequence.{Sequence, SeqStatus, preempted, num_tokens}
use turboserve.Engine.BlockManager.{BlockManager, Work}
use turboserve.Engine.BlockManager.Growth.{append_slots}
use turboserve.Engine.BlockManager.Publication.{publish_computed_blocks, free, release}
use turboserve.Engine.BlockManager.Publication
use turboserve.Engine.BlockManager.Ownership.{Frame}
use turboserve.Engine.BlockManager.Adoption.{IsManaged}
use turboserve.Engine.BlockManager.Slots.{IsAppended, append_slots-IsAppended}
use turboserve.Engine.BlockManager.Freeing.{IsFreed, free-IsFreed, preempt-IsFreed}
use turboserve.Engine.BlockManager.PublishLoop.{publish_computed_blocks-IsManaged}
use turboserve.Engine.BlockManager.Keeping.{
  IsKeptAs, append_slots-IsKept, publish-IsKept, preempt-IsKept,
}
use turboserve.Engine.WaitQueue.{WaitQueue, remove_first}
use turboserve.Engine.Scheduler.{write}
use turboserve.Engine.Scheduler.Holdings.{IsFramed, IsSplit, frame_of, IsSplit-first}
use turboserve.Engine.Scheduler.Frames.{Framed-part, focus, join, leave, write_self}
use turboserve.Engine.Scheduler.Invariant.{IsSound, IsOrderly, move-IsOrderly, stay-IsMove}

module _ {m : BlockManager} {store : ℕ → Sequence} {R P : List ℕ} {Q : WaitQueue} (id : ℕ)
    (v : IsOrderly m store R P Q) where
  -- A running sequence, its blocks in the frame of the others.
  module _ (h : 0 < count id R) where
    split : IsSplit id (remove_first id R) R
    split = IsSplit-first id R (omega (arith, h, v.once id))

    framed : IsFramed m store (remove_first id R)
    framed = Framed-part id (remove_first id R) split v.holding

    abbrev others : Frame
    others = frame_of framed

    managed : IsManaged others (record { manager = m; seq = store id })
    managed = focus id framed split v.holding

    named : Sequence.seq_id (store id) ≡ id
    named = (v.runs id h).sound.named

    IsSound-after :
        (s : SeqStatus) (r : Work)
        → IsKeptAs s (record { manager = m; seq = store id }) r
        → r.seq.num_computed_tokens ≤ num_tokens (store id)
        → IsSound id r.seq
    IsSound-after s r k c = record {
      named = k.same_id ∙ named;
      prompted = omega (arith, (v.runs id h).sound.prompted, ap length k.same_prompt);
      computed = omega (arith, c, ap length k.same_prompt, ap length k.same_outputs);
    }

    -- Slots for the next tokens of a running sequence.
    pub append_slots-IsOrderly :
        (n : ℕ)
        → Sequence.num_computed_tokens (store id) + n ≤ num_tokens (store id)
        → ((F : Frame) × IsAppended F n
              (record { manager = m; seq = store id })
              (append_slots n (record { manager = m; seq = store id })))
          × IsOrderly
              (append_slots n (record { manager = m; seq = store id })).1.manager
              (write id (append_slots n (record { manager = m; seq = store id })).1.seq store)
              R
              P
              Q
    append_slots-IsOrderly n e =
        let w : Work = record { manager = m; seq = store id } in
        let a = append_slots-IsAppended others n w managed v.sized e in
        let k = append_slots-IsKept n w in
        let r = (append_slots n w).1 in
        (
          (others, a),
          move-IsOrderly id r.seq m r.manager store R R P P Q Q
              (stay-IsMove id r.seq m r.manager store R P Q v h
                (join id framed r _ split named k a.managed) k.same_size k.same_cache
                (record {
                  sound = IsSound-after _ r k (omega (arith, a.same_progress, e));
                  status_is = k.status_is ∙ (v.runs id h).status_is;
                })
                k.same_tenant)
              v,
        )

    module _ (blake2b : List ℕ → List ℕ) where
      -- Publishing the blocks of a running sequence.
      pub publish-IsOrderly :
          ((n : ℕ) × ((publish_computed_blocks blake2b (store id) m).0 ≡ ok n))
          × IsOrderly (publish_computed_blocks blake2b (store id) m).1 store R P Q
      publish-IsOrderly =
          let w : Work = record { manager = m; seq = store id } in
          let (e, g) =
            publish_computed_blocks-IsManaged blake2b others w managed
              (v.runs id h).sound.computed in
          let k = publish-IsKept blake2b w in
          let r : Work = record w { manager = (publish_computed_blocks blake2b (store id) m).1 } in
          (
            e,
            subst (λ f. IsOrderly r.manager f R P Q) (write_self id store)
                (move-IsOrderly id (store id) m r.manager store R R P P Q Q
                  (stay-IsMove id (store id) m r.manager store R P Q v h
                    (join id framed r _ split named k g) k.same_size k.same_cache (v.runs id h)
                    refl)
                  v),
          )

      -- Preempting a running sequence, and queueing it with the preempted ones.
      pub preempt-IsOrderly :
          ((Publication.preempt blake2b (record { manager = m; seq = store id })).0 ≡ ok tt)
          × IsOrderly
              (Publication.preempt blake2b (record { manager = m; seq = store id })).1.manager
              (write id
                (Publication.preempt blake2b (record { manager = m; seq = store id })).1.seq
                store)
              (remove_first id R)
              (P ++ id ∷ [])
              Q
          × IsKeptAs preempted
              (record { manager = m; seq = store id })
              (Publication.preempt blake2b (record { manager = m; seq = store id })).1
      preempt-IsOrderly =
          let w : Work = record { manager = m; seq = store id } in
          let (f, s, z, t, o) =
            preempt-IsFreed others blake2b w managed (v.runs id h).sound.computed in
          let k = preempt-IsKept blake2b w (
            IsFreed.returned
              (free-IsFreed others blake2b w managed (v.runs id h).sound.computed).0) in
          let r = (Publication.preempt blake2b w).1 in
          (
            f.returned,
            move-IsOrderly id r.seq m r.manager store R (remove_first id R) P (P ++ id ∷ []) Q Q
                (record {
                  holding = leave id framed r _ split named k f.pool f.counted f.framed;
                  kept_size = k.same_size;
                  kept_cache = k.same_cache;
                  kept_tenant = k.same_tenant;
                  others = λ j n. (
                    ground (arith, split.counts j, ==_iff id j, n),
                    ground (
                      arith,
                      count-append j P (id ∷ []),
                      count-cons j id [],
                      count-nil j,
                      ==_iff id j,
                      n,
                    ),
                    refl,
                  );
                  once = ground (
                    arith,
                    split.apart,
                    v.once id,
                    h,
                    count-append id P (id ∷ []),
                    count-cons id id [],
                    count-nil id,
                  );
                  runs = λ l. absurd (omega (arith, l, split.apart));
                  resumes = λ l. record {
                    sound = IsSound-after _ r k (omega (arith, z));
                    status_is = s;
                    empty = f.emptied;
                  };
                  waits = λ l. absurd (omega (arith, v.once id, h, l));
                  queue = v.queue;
                })
                v,
            k,
          )
