-- ===== src/Engine/Scheduler/Arrivals.antt =====
-- Scheduler.add_sequence (turboserve/engine/core/scheduler.py): how a request comes in.
use turboserve.Prelude.{
  ℕ, ◌+◌, ◌≤◌, ◌<◌, ◌≡◌, ◌≢◌, refl, sym, ap, subst, ◌∙◌, true, false, List, [], inl, inr, arith,
  count, count-nil, count-cons, Bool-cases, Result, ok, err, value_error, ==_iff, if◌then◌else◌,
  ltb, ◌==◌,
}
use turboserve.Prelude.Dict.{get, put}
use turboserve.Prelude.Keys.{bytes_eq}
use turboserve.Engine.PrefixCache.{is_some}
use turboserve.Engine.Sequence.{
  Sequence, waiting, preempted, num_prompt_tokens, num_tokens, num_blocks_needed,
}
use turboserve.Engine.BlockManager.{BlockManager}
use turboserve.Engine.WaitQueue.{WaitQueue, contents, push}
use turboserve.Engine.WaitQueue.Contents.{push-IsExchange}
use turboserve.Engine.WaitQueue.Relabelling.{IsQueue-relabelled}
use turboserve.Engine.Scheduler.{Scheduler, write, is_too_long, add_sequence}
use turboserve.Engine.Scheduler.Holdings.{
  IsHolding, Holds, references-write, write-same, write-other,
}
use turboserve.Engine.Scheduler.Frames.{write-write}
use turboserve.Engine.Scheduler.Invariant.{
  Idles, IsOrderly, IsScheduler, Runs, write_all, move-IsOrderly, tenant_in,
}
use turboserve.Engine.Scheduler.StepState.{places}

-- The three reasons for which a request is refused.
pub data IsRefused (s : Sequence) (c : Scheduler) : Type 0 where
  is_known : is_some (get c.by_request s.request_id) ≡ true → IsRefused s c
  is_too_big :
      c.block_manager.allocator.num_blocks < num_blocks_needed s c.config.block_size → IsRefused s c
  is_unsplit :
      c.config.enable_chunked_prefill ≡ false
      → c.config.max_num_batched_tokens < num_tokens s
      → IsRefused s c

is_too_long-IsRefused : (c : Scheduler) (s : Sequence) → is_too_long c s ≡ true → IsRefused s c
unfolding is_too_long
is_too_long-IsRefused c s e = elim (Bool-cases c.config.enable_chunked_prefill) [
  | inl h ↦ absurd (ground (arith, e, h))
  | inr h ↦ is_unsplit h (ground (arith, e, h))
]

not-IsRefused :
    (c : Scheduler) (s : Sequence)
    → is_some (get c.by_request s.request_id) ≡ false
    → ltb c.block_manager.allocator.num_blocks (num_blocks_needed s c.config.block_size) ≡ false
    → is_too_long c s ≡ false
    → ¬ IsRefused s c
unfolding is_too_long
not-IsRefused c s e f g (is_known h) = cc (e, h)
not-IsRefused c s e f g (is_too_big h) = ground (arith, f, h)
not-IsRefused c s e f g (is_unsplit h l) = ground (arith, g, h, l)

-- A request that has come in waits, is indexed, and changes no other.
pub record IsArrival (s : Sequence) (c d : Scheduler) : Type 0 where
  pub valid : IsScheduler d
  pub waits : count s.seq_id (contents d.waiting) ≡ 1
  pub placed : places d s.seq_id ≡ 1
  pub others : (k : ℕ) → s.seq_id ≢ k → (places d k ≡ places c k) × (d.store k ≡ c.store k)
  pub stored : d.store s.seq_id ≡ record s { status = waiting }
  pub index_is : d.by_request ≡ put c.by_request s.request_id s.seq_id
  pub same_counter : d.seq_counter ≡ c.seq_counter

-- What `add_sequence` may do.
pub data IsAnswer (s : Sequence) (c : Scheduler) (r : Result (Unit {0}) × Scheduler) : Type 0 where
  refused : IsRefused s c → r ≡ (err value_error, c) → IsAnswer s c r
  arrived : ¬ IsRefused s c → r.0 ≡ ok tt → IsArrival s c r.1 → IsAnswer s c r

-- A sequence that no queue knows of may be written.
module _ (id : ℕ) (s : Sequence) {m : BlockManager} {store : ℕ → Sequence} {R : List ℕ} where
  unlisted-IsHolding : count id R ≡ 0 → IsHolding m store R → IsHolding m (write id s store) R
  unlisted-IsHolding z h = record {
    pool = h.pool;
    counted = λ b. h.counted b ∙ sym (references-write store R id b s z);
    each = λ k l.
        write_all (Holds m) id s store k (λ p. absurd (omega (arith, z, l, ap (λ j. count j R) p)))
          (λ p. h.each k l);
  }

  unlisted-IsOrderly :
      {P : List ℕ} {Q : WaitQueue}
      → count id R + count id P + count id (contents Q) ≡ 0
      → IsOrderly m store R P Q
      → IsOrderly m (write id s store) R P Q
  unlisted-IsOrderly {P} {Q} z v = record {
    holding = unlisted-IsHolding (omega (arith, z)) v.holding;
    sized = v.sized;
    same_size = v.same_size;
    once = v.once;
    runs = λ k l.
        write_all Runs id s store k (λ p. absurd (omega (arith, z, l, ap (λ j. count j R) p)))
          (λ p. v.runs k l);
    resumes = λ k l.
        write_all (Idles preempted) id s store k
          (λ p. absurd (omega (arith, z, l, ap (λ j. count j P) p))) (λ p. v.resumes k l);
    waits = λ k l.
        write_all (Idles waiting) id s store k
          (λ p. absurd (omega (arith, z, l, ap (λ j. count j (contents Q)) p))) (λ p. v.waits k l);
    queue =
        IsQueue-relabelled (tenant_in store) (tenant_in (write id s store)) Q
          (λ a l.
            ap Sequence.tenant_id (
              write-other id a s store
                (λ p. omega (arith, z, l, ap (λ j. count j (contents Q)) p))))
          v.queue;
  }

-- A sequence as it comes in: its blocks and progress are none.
pub record IsNew (s : Sequence) (c : Scheduler) : Type 0 where
  pub prompted : 0 < num_prompt_tokens s
  pub no_blocks : s.block_table ≡ []
  pub computed : s.num_computed_tokens ≤ num_tokens s
  pub unlisted : places c s.seq_id ≡ 0

queue_up-IsArrival :
    (s : Sequence) (c : Scheduler)
    → IsScheduler c
    → IsNew s c
    → IsArrival s c (record c {
      store = write s.seq_id (record s { status = waiting }) c.store;
      by_request = put c.by_request s.request_id s.seq_id;
      waiting = push s c.waiting;
    })
queue_up-IsArrival s c v n =
    let id = s.seq_id in
    let t : Sequence = record s { status = waiting } in
    let store' = write id t c.store in
    let w : IsOrderly c.block_manager store' c.running c.preempted c.waiting =
      unlisted-IsOrderly id t n.unlisted v in
    let there : store' id ≡ t = write-same id t c.store in
    let x = push-IsExchange (tenant_in store') s c.waiting (ap Sequence.tenant_id there) w.queue in
    let counts : (k : ℕ)
        → count k (contents (push s c.waiting))
          ≡ count k (contents c.waiting) + (if id == k then 1 else 0) =
      λ k. omega (arith, x.counted k, count-cons k id [], count-nil k) in
    let moved : IsOrderly c.block_manager (write id t store') c.running c.preempted
        (push s c.waiting) =
      move-IsOrderly id t c.block_manager c.block_manager store' c.running c.running c.preempted
        c.preempted c.waiting (push s c.waiting)
        (record {
          holding =
              subst (λ g. IsHolding c.block_manager g c.running) (sym (write-write id t t c.store))
                w.holding;
          kept_size = refl;
          kept_cache = refl;
          kept_tenant = sym (ap Sequence.tenant_id there);
          others = λ k g. (refl, refl, ground (arith, counts k, ==_iff id k, g));
          once = ground (arith, counts id, ==_iff id id, n.unlisted);
          runs = λ l. absurd (omega (arith, n.unlisted, l));
          resumes = λ l. absurd (omega (arith, n.unlisted, l));
          waits = λ l. record {
            sound = record { named = refl; prompted = n.prompted; computed = n.computed };
            status_is = refl;
            empty = n.no_blocks;
          };
          queue = x.queue;
        })
        w in
    record {
      valid =
          subst (λ g. IsOrderly c.block_manager g c.running c.preempted (push s c.waiting))
            (write-write id t t c.store) moved;
      waits = ground (arith, counts id, ==_iff id id, n.unlisted);
      placed = ground (arith, counts id, ==_iff id id, n.unlisted);
      others = λ k g. (ground (arith, counts k, ==_iff id k, g), write-other id k t c.store g);
      stored = there;
      index_is = refl;
      same_counter = refl;
    }

-- Of a new sequence, with a scheduler whose queues and blocks are in order: `add_sequence` raises
-- ValueError and changes nothing exactly if the request is known already, needs more blocks than the
-- pool has, or has more tokens than an unsplit step may have; otherwise the sequence waits and is
-- indexed, the order is kept, and no other sequence changes.
pub add_sequence-IsAnswer :
    (s : Sequence) (c : Scheduler) → IsScheduler c → IsNew s c → IsAnswer s c (add_sequence s c)
unfolding add_sequence
add_sequence-IsAnswer s c v n = elim (Bool-cases (is_some (get c.by_request s.request_id))) [
  | inl e ↦ rw e (refused (is_known e) refl)
  | inr e ↦
      elim (Bool-cases
        (ltb c.block_manager.allocator.num_blocks (num_blocks_needed s c.config.block_size))) [
          | inl f ↦ rw (e, f) (refused (is_too_big (ground (arith, f))) refl)
          | inr f ↦ elim (Bool-cases (is_too_long c s)) [
            | inl g ↦ rw (e, f, g) (refused (is_too_long-IsRefused c s g) refl)
            | inr g ↦
                rw (e, f, g) (arrived (not-IsRefused c s e f g) refl (queue_up-IsArrival s c v n))
          ]
        ]
]
