-- ===== src/Engine/Scheduler/Admitting.antt =====
-- Giving a queued sequence its blocks, and then starting it or putting it back.
use turboserve.Prelude.{
  ℕ, ◌-◌, ◌<◌, ◌≡◌, ◌≢◌, refl, sym, ap, subst, ◌∙◌, true, List, [], ◌∷◌, ◌++◌, length, arith, count,
  count-nil, count-cons, count-append, ==_iff, Result, ok, continue-ok,
}
use turboserve.Engine.Sequence.{Sequence, SeqStatus, waiting, preempted, num_tokens}
use turboserve.Engine.BlockManager
use turboserve.Engine.BlockManager.{BlockManager, Work, prefix_cache, can_allocate}
use turboserve.Engine.BlockManager.Growth.{can_append}
use turboserve.Engine.BlockManager.Publication.{free, release, unprogressed}
use turboserve.Engine.BlockManager.Admission.{can_allocate-can_append}
use turboserve.Engine.BlockManager.Adoption.{IsManaged, allocate-IsAdmission}
use turboserve.Engine.BlockManager.Freeing.{IsFreed, free-IsFreed}
use turboserve.Engine.BlockManager.Keeping.{IsKept, IsKeptAs, allocate-IsKept, release-IsKept}
use turboserve.Engine.WaitQueue.{WaitQueue, contents}
use turboserve.Engine.WaitQueue.Contents.{IsQueue}
use turboserve.Engine.Scheduler.{write}
use turboserve.Engine.Scheduler.Holdings.{
  IsHolding, IsFramed, IsSplit, frame_of, IsSplit-last, write-same,
}
use turboserve.Engine.Scheduler.Frames.{
  SameBlocks, Framed-part, Framed-all, focus, join, leave, unowned, touch, write-write,
}
use turboserve.Engine.Scheduler.Invariant.{
  IsSound, Runs, Idles, IsOrderly, move-IsOrderly, tenant_in,
}

-- A queued sequence of status `t` after `allocate`: all as it was, but that it has blocks.
pub record IsFunded (id : ℕ) (t : SeqStatus) (m : BlockManager) (store : ℕ → Sequence) (R : List ℕ)
    (r : Result ℕ × Work) : Type 0 where
  pub cached : ℕ
  pub returned : r.0 ≡ ok cached
  pub held : IsHolding r.1.manager (write id r.1.seq store) (R ++ id ∷ [])
  pub kept : IsKeptAs t (record { manager = m; seq = store id }) r.1
  pub sound : IsSound id r.1.seq
  pub left : r.1.seq.num_computed_tokens < num_tokens r.1.seq
  -- All the tokens that are left to compute can be appended.
  pub room :
      can_append r.1.manager r.1.seq (num_tokens r.1.seq - r.1.seq.num_computed_tokens) ≡ true

module _ (blake2b : List ℕ → List ℕ) (id : ℕ) (t : SeqStatus) {m : BlockManager}
    {store : ℕ → Sequence} {R P : List ℕ} {Q : WaitQueue} (v : IsOrderly m store R P Q) where
  pub allocate-IsFunded :
      count id R ≡ 0
      → Idles t id (store id)
      → can_allocate blake2b m (store id) ≡ ok true
      → IsFunded id t m store R
          (BlockManager.allocate blake2b (record { manager = m; seq = store id }))
  allocate-IsFunded z i c =
      let w : Work = record { manager = m; seq = store id } in
      let f = Framed-all v.holding in
      let some_tokens : 0 < num_tokens (store id) = omega (arith, i.sound.prompted) in
      let a =
        allocate-IsAdmission blake2b (frame_of f) w i.empty some_tokens v.same_size
          (unowned f v.holding) in
      let k = allocate-IsKept blake2b w in
      let r = (BlockManager.allocate blake2b w).1 in
      let same : num_tokens r.seq ≡ num_tokens (store id) =
        omega (arith, ap length k.same_prompt, ap length k.same_outputs) in
      record {
        cached = a.cached;
        returned = a.returned;
        held = join id f r _ (IsSplit-last id R z) i.sound.named k a.managed;
        kept = record {
          others = k.others;
          same_size = k.same_size;
          same_cache = k.same_cache;
          same_id = k.same_id;
          same_request = k.same_request;
          same_tenant = k.same_tenant;
          same_prompt = k.same_prompt;
          same_outputs = k.same_outputs;
          status_is = k.status_is ∙ i.status_is;
        };
        sound = record {
          named = k.same_id ∙ i.sound.named;
          prompted = omega (arith, i.sound.prompted, ap length k.same_prompt);
          computed = omega (arith, a.left, a.progress, same);
        };
        left = omega (arith, a.left, a.progress, same);
        room =
            subst (λ n. can_append r.manager r.seq (n - r.seq.num_computed_tokens) ≡ true)
              (sym same)
              (can_allocate-can_append blake2b (frame_of f) w i.empty some_tokens v.same_size
                (unowned f v.holding) c);
      }

  module _ (r : Work) (n : ℕ) (f : IsFunded id t m store R (ok n, r)) where
    -- What `release` does.
    record IsReleased (u : Result (Unit {0}) × Work) : Type 0 where
      returned : u.0 ≡ ok tt
      held : IsHolding u.1.manager (write id u.1.seq store) R
      kept : IsKept r u.1
      emptied : u.1.seq.block_table ≡ []
      no_progress : u.1.seq.num_computed_tokens ≡ 0

    release-IsReleased : count id R ≡ 0 → IsReleased (release blake2b r)
    unfolding release unprogressed
    release-IsReleased z =
        let e = continue-ok (free blake2b r) _ freed.returned in
        let w : Work = record {
          manager = (free blake2b r).1.manager;
          seq = unprogressed blake2b (free blake2b r).1.seq;
        } in
        let kept : IsKept r w = subst (λ u. IsKept r u.1) e (release-IsKept blake2b r) in
        let kept_there : IsKeptAs (Sequence.status r.seq)
            (record { manager = r.manager; seq = write id r.seq store id }) w =
          subst (λ s. IsKeptAs (Sequence.status r.seq) (record { manager = r.manager; seq = s }) w)
            (sym there) kept in
        rw e (record {
          returned = refl;
          held =
              subst (λ g. IsHolding w.manager g R) (write-write id r.seq w.seq store)
                (leave id framed w (Sequence.status r.seq) split named_there kept_there freed.pool
                  freed.counted freed.framed);
          kept = kept;
          emptied = freed.emptied;
          no_progress = refl;
        })
      where
        split : IsSplit id R (R ++ id ∷ [])
        split = IsSplit-last id R z

        framed : IsFramed r.manager (write id r.seq store) R
        framed = Framed-part id R split f.held

        there : write id r.seq store id ≡ r.seq
        there = write-same id r.seq store

        freed : IsFreed (frame_of framed) r.seq (free blake2b r)
        freed =
            (free-IsFreed (frame_of framed) blake2b r
              (subst (λ s. IsManaged (frame_of framed) (record { manager = r.manager; seq = s }))
                there (focus id framed split f.held))
              f.sound.computed).0

        named_there : Sequence.seq_id (write id r.seq store id) ≡ id
        named_there = ap Sequence.seq_id there ∙ f.sound.named

    -- Back in its queue, without the blocks.
    pub release-IsOrderly :
        count id R ≡ 0
        → (0 < count id P → t ≡ preempted)
        → (0 < count id (contents Q) → t ≡ waiting)
        → ((release blake2b r).0 ≡ ok tt)
          × IsOrderly
              (release blake2b r).1.manager
              (write id (release blake2b r).1.seq (write id r.seq store))
              R
              P
              Q
    release-IsOrderly z p q =
        let u = release-IsReleased z in
        let w = (release blake2b r).1 in
        let idle : Idles t id w.seq = record {
          sound = record {
            named = u.kept.same_id ∙ f.sound.named;
            prompted = omega (arith, f.sound.prompted, ap length u.kept.same_prompt);
            computed = omega (arith, u.no_progress);
          };
          status_is = u.kept.status_is ∙ f.kept.status_is;
          empty = u.emptied;
        } in
        (
          u.returned,
          subst (λ g. IsOrderly w.manager g R P Q) (sym (write-write id r.seq w.seq store))
              (move-IsOrderly id w.seq m w.manager store R R P P Q Q
                (record {
                  holding = u.held;
                  kept_size = u.kept.same_size ∙ f.kept.same_size;
                  kept_cache = u.kept.same_cache ∙ f.kept.same_cache;
                  kept_tenant = u.kept.same_tenant ∙ f.kept.same_tenant;
                  others = λ k g. (refl, refl, refl);
                  once = v.once id;
                  runs = λ l. absurd (omega (arith, l, z));
                  resumes = λ l. subst (λ x. Idles x id w.seq) (p l) idle;
                  waits = λ l. subst (λ x. Idles x id w.seq) (q l) idle;
                  queue = v.queue;
                })
                v),
        )

    -- In the running set, out of its queue.
    pub start-IsOrderly :
        (s : Sequence) (P' : List ℕ) (Q' : WaitQueue)
        → SameBlocks r.seq s
        → Runs id s
        → s.tenant_id ≡ r.seq.tenant_id
        → count id R ≡ 0
        → count id P' ≡ 0
        → count id (contents Q') ≡ 0
        → ((k : ℕ)
            → id ≢ k
            → (count k P' ≡ count k P) × (count k (contents Q') ≡ count k (contents Q)))
        → IsQueue (tenant_in store) Q'
        → IsOrderly r.manager (write id s (write id r.seq store)) (R ++ id ∷ []) P' Q'
    start-IsOrderly s P' Q' b x e z zp zq o g =
        subst (λ h. IsOrderly r.manager h (R ++ id ∷ []) P' Q') (sym (write-write id r.seq s store))
          (move-IsOrderly id s m r.manager store R (R ++ id ∷ []) P P' Q Q'
            (record {
              holding =
                  subst (λ h. IsHolding r.manager h (R ++ id ∷ [])) (write-write id r.seq s store)
                    (touch id s f.held
                      (subst (λ y. SameBlocks y s) (sym (write-same id r.seq store)) b));
              kept_size = f.kept.same_size;
              kept_cache = f.kept.same_cache;
              kept_tenant = e ∙ f.kept.same_tenant;
              others = λ k n. (
                ground (
                  arith,
                  count-append k R (id ∷ []),
                  count-cons k id [],
                  count-nil k,
                  ==_iff id k,
                  n,
                ),
                (o k n).0,
                (o k n).1,
              );
              once = ground (
                arith,
                z,
                zp,
                zq,
                count-append id R (id ∷ []),
                count-cons id id [],
                count-nil id,
              );
              runs = λ l. x;
              resumes = λ l. absurd (omega (arith, l, zp));
              waits = λ l. absurd (omega (arith, l, zq));
              queue = g;
            })
            v)
