-- ===== src/Engine/Scheduler/Invariant.antt =====
-- What holds of a scheduler between the operations: which queue a sequence stands in, its status, and
-- the blocks of the running ones.
use turboserve.Prelude.{
  ℕ, ◌+◌, ◌≤◌, ◌<◌, ◌≡◌, ◌≢◌, refl, sym, ap, subst, fun_ext, Option, none, some, List, [], inl, inr,
  arith, count, ◌==◌, Bool-cases, ==_iff,
}
use turboserve.Engine.PrefixCache.{PrefixCache}
use turboserve.Engine.Sequence.{
  Sequence, SeqStatus, waiting, running, preempted, num_prompt_tokens, num_tokens,
}
use turboserve.Engine.BlockManager.{BlockManager, prefix_cache}
use turboserve.Engine.BlockManager.Adoption.{SameSize}
use turboserve.Engine.BlockManager.CacheSizes.{cache_size}
use turboserve.Engine.WaitQueue.{WaitQueue, Tenant, contents}
use turboserve.Engine.WaitQueue.Contents.{IsQueue}
use turboserve.Engine.Scheduler.{Scheduler, write}
use turboserve.Engine.Scheduler.Holdings.{IsHolding, write-same, write-other}

-- A sequence that has a prompt and has computed no more tokens than it holds.
pub record IsSound (k : ℕ) (s : Sequence) : Type 0 where
  pub named : s.seq_id ≡ k
  pub prompted : 0 < num_prompt_tokens s
  pub computed : s.num_computed_tokens ≤ num_tokens s

pub record Runs (k : ℕ) (s : Sequence) : Type 0 where
  pub sound : IsSound k s
  pub status_is : s.status ≡ running

-- A queued sequence, waiting or preempted, which holds no block.
pub record Idles (status : SeqStatus) (k : ℕ) (s : Sequence) : Type 0 where
  pub sound : IsSound k s
  pub status_is : s.status ≡ status
  pub empty : s.block_table ≡ []

abbrev pub tenant_in : (ℕ → Sequence) → ℕ → Tenant
tenant_in store k = Sequence.tenant_id (store k)

-- The manager, the store and the three queues of a scheduler in order: a sequence stands in one queue
-- at most, with the status that belongs there, and only the running ones hold blocks.
pub record IsOrderly (m : BlockManager) (store : ℕ → Sequence) (R P : List ℕ) (Q : WaitQueue)
    : Type 0 where
  pub holding : IsHolding m store R
  pub sized : 0 < m.block_size
  pub same_size : SameSize m.block_size (prefix_cache m)
  pub once : (k : ℕ) → count k R + count k P + count k (contents Q) ≤ 1
  pub runs : (k : ℕ) → 0 < count k R → Runs k (store k)
  pub resumes : (k : ℕ) → 0 < count k P → Idles preempted k (store k)
  pub waits : (k : ℕ) → 0 < count k (contents Q) → Idles waiting k (store k)
  pub queue : IsQueue (tenant_in store) Q

abbrev pub IsScheduler : Scheduler → Type 0
IsScheduler c = IsOrderly c.block_manager c.store c.running c.preempted c.waiting

pub SameSize-keep :
    (o q : Option PrefixCache) (size : ℕ)
    → cache_size q ≡ cache_size o
    → SameSize size o
    → SameSize size q
SameSize-keep none none size e h = tt
SameSize-keep none (some c) size e h = cc
SameSize-keep (some c) none size e h = tt
SameSize-keep (some c) (some d) size e h = cc

-- What holds of the written object and of the others holds of all.
pub write_all :
    (P : ℕ → Sequence → Type 0) (id : ℕ) (s : Sequence) (store : ℕ → Sequence) (k : ℕ)
    → (id ≡ k → P id s)
    → (id ≢ k → P k (store k))
    → P k (write id s store k)
write_all P id s store k h g = elim (Bool-cases (id == k)) [
  | inl e ↦
      let same = (==_iff id k).0 e in
      subst (λ j. P j (write id s store j)) same
        (subst (P id) (sym (write-same id s store)) (h same))
  | inr e ↦
      let other : id ≢ k = λ p. cc (e, (==_iff id k).1 p) in
      subst (P k) (sym (write-other id k s store other)) (g other)
]

pub tenant_in-write :
    (id : ℕ) (s : Sequence) (store : ℕ → Sequence)
    → s.tenant_id ≡ tenant_in store id
    → tenant_in (write id s store) ≡ tenant_in store
tenant_in-write id s store e = fun_ext λ k.
    write_all (λ j t. Sequence.tenant_id t ≡ tenant_in store j) id s store k (λ p. e) (λ p. refl)

pub queue-write :
    (id : ℕ) (s : Sequence) (store : ℕ → Sequence) (q : WaitQueue)
    → s.tenant_id ≡ tenant_in store id
    → IsQueue (tenant_in store) q
    → IsQueue (tenant_in (write id s store)) q
queue-write id s store q e v = subst (λ f. IsQueue f q) (sym (tenant_in-write id s store e)) v

-- What becomes of one sequence, with its place in the queues.
pub record IsMove (id : ℕ) (s : Sequence) (m m' : BlockManager) (store : ℕ → Sequence)
    (R R' P P' : List ℕ) (Q Q' : WaitQueue) : Type 0 where
  pub holding : IsHolding m' (write id s store) R'
  pub kept_size : m'.block_size ≡ m.block_size
  pub kept_cache : cache_size (prefix_cache m') ≡ cache_size (prefix_cache m)
  pub kept_tenant : s.tenant_id ≡ tenant_in store id
  pub others :
      (k : ℕ)
      → id ≢ k
      → (count k R' ≡ count k R)
        × (count k P' ≡ count k P)
        × (count k (contents Q') ≡ count k (contents Q))
  pub once : count id R' + count id P' + count id (contents Q') ≤ 1
  pub runs : 0 < count id R' → Runs id s
  pub resumes : 0 < count id P' → Idles preempted id s
  pub waits : 0 < count id (contents Q') → Idles waiting id s
  pub queue : IsQueue (tenant_in store) Q'

pub move-IsOrderly :
    (id : ℕ) (s : Sequence) (m m' : BlockManager) (store : ℕ → Sequence) (R R' P P' : List ℕ)
    (Q Q' : WaitQueue)
    → IsMove id s m m' store R R' P P' Q Q'
    → IsOrderly m store R P Q
    → IsOrderly m' (write id s store) R' P' Q'
move-IsOrderly id s m m' store R R' P P' Q Q' x v = record {
  holding = x.holding;
  sized = omega (arith, v.sized, x.kept_size);
  same_size =
      subst (λ n. SameSize n (prefix_cache m')) (sym x.kept_size)
        (SameSize-keep (prefix_cache m) (prefix_cache m') m.block_size x.kept_cache v.same_size);
  once = λ k. elim (Bool-cases (id == k)) [
    | inl e ↦
        subst (λ j. count j R' + count j P' + count j (contents Q') ≤ 1) ((==_iff id k).0 e) x.once
    | inr e ↦
        let (a, b, c) = x.others k (λ p. cc (e, (==_iff id k).1 p)) in
        omega (arith, v.once k, a, b, c)
  ];
  runs = λ k l.
      write_all Runs id s store k (λ p. x.runs (omega (arith, ap (λ j. count j R') p, l)))
        (λ p. v.runs k (omega (arith, (x.others k p).0, l)));
  resumes = λ k l.
      write_all (Idles preempted) id s store k
        (λ p. x.resumes (omega (arith, ap (λ j. count j P') p, l)))
        (λ p. v.resumes k (omega (arith, (x.others k p).1, l)));
  waits = λ k l.
      write_all (Idles waiting) id s store k
        (λ p. x.waits (omega (arith, ap (λ j. count j (contents Q')) p, l)))
        (λ p. v.waits k (omega (arith, (x.others k p).2, l)));
  queue = queue-write id s store Q' x.kept_tenant x.queue;
}

-- A sequence and the manager change; the queues stay.
pub stay-IsMove :
    (id : ℕ) (s : Sequence) (m m' : BlockManager) (store : ℕ → Sequence) (R P : List ℕ)
    (Q : WaitQueue)
    → IsOrderly m store R P Q
    → 0 < count id R
    → IsHolding m' (write id s store) R
    → m'.block_size ≡ m.block_size
    → cache_size (prefix_cache m') ≡ cache_size (prefix_cache m)
    → Runs id s
    → s.tenant_id ≡ tenant_in store id
    → IsMove id s m m' store R R P P Q Q
stay-IsMove id s m m' store R P Q v h g z y r t = record {
  holding = g;
  kept_size = z;
  kept_cache = y;
  kept_tenant = t;
  others = λ k n. (refl, refl, refl);
  once = v.once id;
  runs = λ l. r;
  resumes = λ l. absurd (omega (arith, v.once id, h, l));
  waits = λ l. absurd (omega (arith, v.once id, h, l));
  queue = v.queue;
}
