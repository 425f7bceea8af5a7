-- ===== src/Engine/Scheduler/StepState.antt =====
-- What holds while a step is put together.
use turboserve.Prelude.{
  ℕ, ◌+◌, ◌≤◌, ◌<◌, ◌≡◌, refl, subst, inl, inr, Bool-cases, ◌∙◌, Bool, true, false, List, [], ◌∷◌,
  ◌++◌, map, length, length-append, arith, count, count-nil, count-cons, count-add_to, add_to, ◌==◌,
  if◌then◌else◌, ==_iff,
}
use turboserve.Engine.Sequence.{Sequence}
use turboserve.Engine.WaitQueue.{contents}
use turboserve.Engine.SchedulerOutput.{ScheduledSeq}
use turboserve.Engine.SchedulerOutput.Batch.{IsShare, AreShares, AreShares-append}
use turboserve.Engine.Scheduler.{Scheduler, SchedulerConfig, write}
use turboserve.Engine.Scheduler.Invariant.{IsScheduler, write_all}
use turboserve.Engine.Scheduler.Step.{StepState, recorded_as, num_tokens_of}

-- How often a sequence is queued.
abbrev pub places : Scheduler → ℕ → ℕ
places c k = count k c.running + count k c.preempted + count k (contents c.waiting)

-- The request and its tokens are the same.
pub record SameRequest (s t : Sequence) : Type 0 where
  pub request : t.request_id ≡ s.request_id
  pub prompt : t.prompt_token_ids ≡ s.prompt_token_ids
  pub outputs : t.output_token_ids ≡ s.output_token_ids

-- Nothing is lost from the queues, doubled in them or renamed.
pub record IsCarried (c d : Scheduler) : Type 0 where
  pub same_config : d.config ≡ c.config
  pub same_index : d.by_request ≡ c.by_request
  pub same_counter : d.seq_counter ≡ c.seq_counter
  pub requests : (k : ℕ) → SameRequest (c.store k) (d.store k)
  pub same_places : (k : ℕ) → places d k ≡ places c k

pub SameRequest-refl : (s : Sequence) → SameRequest s s
SameRequest-refl s = record { request = refl; prompt = refl; outputs = refl }

pub SameRequest-trans : {s t u : Sequence} → SameRequest s t → SameRequest t u → SameRequest s u
SameRequest-trans a b = record {
  request = b.request ∙ a.request;
  prompt = b.prompt ∙ a.prompt;
  outputs = b.outputs ∙ a.outputs;
}

pub IsCarried-refl : (c : Scheduler) → IsCarried c c
IsCarried-refl c = record {
  same_config = refl;
  same_index = refl;
  same_counter = refl;
  requests = λ k. SameRequest-refl (c.store k);
  same_places = λ k. refl;
}

pub IsCarried-trans : {c d e : Scheduler} → IsCarried c d → IsCarried d e → IsCarried c e
IsCarried-trans a b = record {
  same_config = b.same_config ∙ a.same_config;
  same_index = b.same_index ∙ a.same_index;
  same_counter = b.same_counter ∙ a.same_counter;
  requests = λ k. SameRequest-trans (a.requests k) (b.requests k);
  same_places = λ k. b.same_places k ∙ a.same_places k;
}

pub write-SameRequest :
    (id : ℕ) (s : Sequence) (store : ℕ → Sequence)
    → SameRequest (store id) s
    → (k : ℕ) → SameRequest (store k) (write id s store k)
write-SameRequest id s store h k =
    write_all (λ j t. SameRequest (store j) t) id s store k (λ p. h)
      (λ p. SameRequest-refl (store k))

abbrev pub ids_of : List ScheduledSeq → List ℕ
ids_of items = map ScheduledSeq.seq_id items

-- The batch so far fits the budgets, and is of running sequences, each at most once, whose blocks
-- cover what it computes.
pub record IsStep (config : SchedulerConfig) (block_size : ℕ) (st : StepState) : Type 0 where
  pub orderly : IsScheduler st.scheduler
  pub same_config : st.scheduler.config ≡ config
  pub same_size : st.scheduler.block_manager.block_size ≡ block_size
  pub tokens :
      st.budget.tokens + (num_tokens_of st.prefills + num_tokens_of st.decodes)
      ≡ config.max_num_batched_tokens
  pub seqs : st.budget.seqs + (length st.prefills + length st.decodes) ≡ config.max_num_seqs
  pub listed :
      (k : ℕ)
      → count k (ids_of st.prefills) + count k (ids_of st.decodes) ≡ count k st.scheduled_ids
  pub once : (k : ℕ) → count k st.scheduled_ids ≤ 1
  pub in_running : (k : ℕ) → 0 < count k st.scheduled_ids → 0 < count k st.scheduler.running
  pub prefills_fit : AreShares block_size st.prefills
  pub decodes_fit : AreShares block_size st.decodes

num_tokens_of-append :
    (xs ys : List ScheduledSeq) → num_tokens_of (xs ++ ys) ≡ num_tokens_of xs + num_tokens_of ys
unfolding num_tokens_of
num_tokens_of-append [] ys = omega arith
num_tokens_of-append (x ∷ xs) ys = omega (arith, num_tokens_of-append xs ys)

num_tokens_of-one : (item : ScheduledSeq) → num_tokens_of (item ∷ []) ≡ item.num_new_tokens
unfolding num_tokens_of
num_tokens_of-one item = omega arith

ids_of-append :
    (k : ℕ) (xs : List ScheduledSeq) (item : ScheduledSeq)
    → count k (ids_of (xs ++ item ∷ [])) ≡ count k (ids_of xs) + (if item.seq_id == k then 1 else 0)
ids_of-append k [] item = ground (arith, count-cons k item.seq_id [], count-nil k)
ids_of-append k (x ∷ xs) item = omega (
  arith,
  count-cons k x.seq_id (ids_of xs),
  count-cons k x.seq_id (ids_of (xs ++ item ∷ [])),
  ids_of-append k xs item,
)

pub count-add_new :
    (k id : ℕ) (l : List ℕ)
    → count id l ≡ 0
    → count k (add_to id l) ≡ (if id == k then 1 else 0) + count k l
count-add_new k id l h = ground (arith, count-add_to k id l)

add_new-once :
    (id : ℕ) (l : List ℕ)
    → count id l ≡ 0
    → ((k : ℕ) → count k l ≤ 1)
    → (k : ℕ) → count k (add_to id l) ≤ 1
add_new-once id l z h k = elim (Bool-cases (id == k)) [
  | inl e ↦
      let z' = subst (λ j. count j l ≡ 0) ((==_iff id k).0 e) z in
      ground (arith, count-add_new k id l z, z')
  | inr e ↦ ground (arith, count-add_new k id l z, e, h k)
]

add_new-in :
    (id : ℕ) (l R : List ℕ)
    → count id l ≡ 0
    → 0 < count id R
    → ((k : ℕ) → 0 < count k l → 0 < count k R)
    → (k : ℕ) → 0 < count k (add_to id l)
    → 0 < count k R
add_new-in id l R z r h k g = elim (Bool-cases (id == k)) [
  | inl e ↦ subst (λ j. 0 < count j R) ((==_iff id k).0 e) r
  | inr e ↦ h k (ground (arith, count-add_new k id l z, e, g))
]

-- Recording an entry of a running sequence that was not in the batch.
pub recorded_as-IsStep :
    (config : SchedulerConfig) (block_size : ℕ) (b : Bool) (item : ScheduledSeq) (st : StepState)
    → IsStep config block_size st
    → IsShare block_size item
    → 0 < count item.seq_id st.scheduler.running
    → count item.seq_id st.scheduled_ids ≡ 0
    → item.num_new_tokens ≤ st.budget.tokens
    → 0 < st.budget.seqs
    → IsStep config block_size (recorded_as b item st)
unfolding recorded_as
recorded_as-IsStep config block_size true item st v s h z t q = record {
  orderly = v.orderly;
  same_config = v.same_config;
  same_size = v.same_size;
  tokens =
      omega
        (arith, v.tokens, t, num_tokens_of-append st.prefills (item ∷ []), num_tokens_of-one item);
  seqs = omega (arith, v.seqs, q, length-append st.prefills (item ∷ []));
  listed = λ k. omega (
    arith,
    v.listed k,
    ids_of-append k st.prefills item,
    count-add_new k item.seq_id st.scheduled_ids z,
  );
  once = add_new-once item.seq_id st.scheduled_ids z v.once;
  in_running = add_new-in item.seq_id st.scheduled_ids st.scheduler.running z h v.in_running;
  prefills_fit = AreShares-append block_size st.prefills (item ∷ []) v.prefills_fit (s, tt);
  decodes_fit = v.decodes_fit;
}
recorded_as-IsStep config block_size false item st v s h z t q = record {
  orderly = v.orderly;
  same_config = v.same_config;
  same_size = v.same_size;
  tokens =
      omega
        (arith, v.tokens, t, num_tokens_of-append st.decodes (item ∷ []), num_tokens_of-one item);
  seqs = omega (arith, v.seqs, q, length-append st.decodes (item ∷ []));
  listed = λ k. omega (
    arith,
    v.listed k,
    ids_of-append k st.decodes item,
    count-add_new k item.seq_id st.scheduled_ids z,
  );
  once = add_new-once item.seq_id st.scheduled_ids z v.once;
  in_running = add_new-in item.seq_id st.scheduled_ids st.scheduler.running z h v.in_running;
  prefills_fit = v.prefills_fit;
  decodes_fit = AreShares-append block_size st.decodes (item ∷ []) v.decodes_fit (s, tt);
}
