-- ===== src/Engine/Scheduler/Preempting.antt =====
-- `_preempt`, `_pick_victim` and `_make_room`.
use turboserve.Prelude.{
  ℕ, ◌+◌, ◌≤◌, ◌<◌, ◌≡◌, ◌≢◌, refl, ap, subst, ◌∙◌, Bool, true, false, some, List, [], ◌∷◌, ◌++◌,
  length, inl, inr, arith, count, count-nil, count-cons, count-append, ◌==◌, Bool-cases, ==_iff,
  Result, ok, continue-ok,
}
use turboserve.Engine.Sequence.{Sequence}
use turboserve.Engine.BlockManager.Publication
use turboserve.Engine.WaitQueue.{remove_first}
use turboserve.Engine.WaitQueue.Contents.{count-remove_first}
use turboserve.Engine.Scheduler.{Scheduler, SchedulerConfig, on_work}
use turboserve.Engine.Scheduler.Holdings.{write-other}
use turboserve.Engine.Scheduler.Moves.{preempt-IsOrderly}
use turboserve.Engine.Scheduler.Step.{
  StepState, object, in_scheduler, set_aside, is_candidate, candidates, least_of, first_victim,
  pick_victim, goes_before,
}
use turboserve.Engine.Scheduler.Schedule.{preempt}
use turboserve.Engine.Scheduler.StepState.{IsStep, IsCarried, write-SameRequest}

pub length-remove_first :
    (id : ℕ) (l : List ℕ) → 0 < count id l → length (remove_first id l) + 1 ≡ length l
unfolding count remove_first
length-remove_first id [] h = absurd (omega arith)
length-remove_first id (x ∷ l) h = ground (arith, length-remove_first id l)

pub count-le-length : (id : ℕ) (l : List ℕ) → count id l ≤ length l
unfolding count
count-le-length id [] = omega arith
count-le-length id (x ∷ l) = ground (arith, count-le-length id l)

-- What `_preempt` does to the step.
pub record Preempts (config : SchedulerConfig) (size id : ℕ) (st : StepState)
    (r : Result (Unit {0}) × StepState) : Type 0 where
  pub returned : r.0 ≡ ok tt
  pub step : IsStep config size r.1
  pub carried : IsCarried st.scheduler r.1.scheduler
  pub running_is : r.1.scheduler.running ≡ remove_first id st.scheduler.running
  pub preempted_is : r.1.scheduler.preempted ≡ st.scheduler.preempted ++ id ∷ []
  pub same_scheduled : r.1.scheduled_ids ≡ st.scheduled_ids
  pub same_budget : r.1.budget ≡ st.budget
  pub others : (k : ℕ) → id ≢ k → object r.1 k ≡ object st k

module _ (blake2b : List ℕ → List ℕ) (config : SchedulerConfig) (size : ℕ) where
  -- Of a running sequence that is not in the batch, `_preempt` raises nothing.
  pub preempt-Preempts :
      (id : ℕ) (st : StepState)
      → IsStep config size st
      → 0 < count id st.scheduler.running
      → count id st.scheduled_ids ≡ 0
      → Preempts config size id st (preempt blake2b id st)
  unfolding preempt set_aside
  preempt-Preempts id st v h z =
      let (e, o, k) = preempt-IsOrderly id v.orderly h blake2b in
      rw (continue-ok (in_scheduler (on_work id (Publication.preempt blake2b)) st) _ e) (record {
        returned = refl;
        step = record {
          orderly = o;
          same_config = v.same_config;
          same_size = k.same_size ∙ v.same_size;
          tokens = v.tokens;
          seqs = v.seqs;
          listed = v.listed;
          once = v.once;
          in_running = λ j l. ground (
            arith,
            v.in_running j l,
            count-remove_first id j st.scheduler.running h,
            not_it j st.scheduled_ids (id == j) refl z l,
          );
          prefills_fit = v.prefills_fit;
          decodes_fit = v.decodes_fit;
        };
        carried = record {
          same_config = refl;
          same_index = refl;
          same_counter = refl;
          requests = write-SameRequest id _ st.scheduler.store (record {
            request = k.same_request;
            prompt = k.same_prompt;
            outputs = k.same_outputs;
          });
          same_places = λ j. ground (
            arith,
            count-remove_first id j st.scheduler.running h,
            count-append j st.scheduler.preempted (id ∷ []),
            count-cons j id [],
            count-nil j,
          );
        };
        running_is = refl;
        preempted_is = refl;
        same_scheduled = refl;
        same_budget = refl;
        others = λ j n. write-other id j _ st.scheduler.store n;
      })
    where
      not_it :
          (j : ℕ) (l : List ℕ) (b : Bool)
          → (id == j) ≡ b
          → count id l ≡ 0
          → 0 < count j l
          → (id == j) ≡ false
      not_it j l false e a g = e
      not_it j l true e a g = absurd (omega (arith, ap (λ i. count i l) ((==_iff id j).0 e), a, g))

pub candidates-in :
    (c : Scheduler) (S : List ℕ) (id k : ℕ) (l : List ℕ)
    → 0 < count k (candidates c S id l)
    → (0 < count k l) × (is_candidate c S id k ≡ true)
unfolding candidates
candidates-in c S id k [] h = absurd (omega (arith, count-nil k))
candidates-in c S id k (x ∷ l) h = elim (Bool-cases (is_candidate c S id x)) [
  | inr e ↦
      let (a, b) = candidates-in c S id k l (subst (λ y. 0 < count k y) (skip e) h) in
      (omega (arith, count-cons k x l, a), b)
  | inl e ↦ elim (Bool-cases (x == k)) [
    | inl f ↦ (
      ground (arith, count-cons k x l, f),
      subst (λ y. is_candidate c S id y ≡ true) ((==_iff x k).0 f) e,
    )
    | inr f ↦
        let g : 0 < count k (x ∷ candidates c S id l) = subst (λ y. 0 < count k y) (keep e) h in
        let (a, b) =
          candidates-in c S id k l (ground (arith, count-cons k x (candidates c S id l), f, g)) in
        (omega (arith, count-cons k x l, a), b)
  ]
]
  where
    skip : is_candidate c S id x ≡ false → candidates c S id (x ∷ l) ≡ candidates c S id l
    skip e = rw e refl

    keep : is_candidate c S id x ≡ true → candidates c S id (x ∷ l) ≡ x ∷ candidates c S id l
    keep e = rw e refl

pub least_of-in :
    (store : ℕ → Sequence) (best : ℕ) (l : List ℕ) → 0 < count (least_of store best l) (best ∷ l)
unfolding least_of
least_of-in store best [] = ground (arith, count-cons best best [])
least_of-in store best (x ∷ l) = elim (Bool-cases (goes_before (store x) (store best))) [
  | inl e ↦ rw e (more (least_of store x l) (least_of-in store x l))
  | inr e ↦ rw e (wider (least_of store best l) (least_of-in store best l))
]
  where
    more : (r : ℕ) → 0 < count r (x ∷ l) → 0 < count r (best ∷ x ∷ l)
    more r h = omega (arith, count-cons r best (x ∷ l), h)

    wider : (r : ℕ) → 0 < count r (best ∷ l) → 0 < count r (best ∷ x ∷ l)
    wider r h = omega (arith, count-cons r best (x ∷ l), count-cons r x l, count-cons r best l, h)

-- A victim is running, is not in the batch, and is not the requester.
pub record IsVictim (c : Scheduler) (S : List ℕ) (id v : ℕ) : Type 0 where
  pub runs : 0 < count v c.running
  pub unscheduled : count v S ≡ 0
  pub other : v ≢ id

pub pick_victim-IsVictim :
    (c : Scheduler) (S : List ℕ) (id v : ℕ) → pick_victim c S id ≡ some v → IsVictim c S id v
unfolding pick_victim first_victim is_candidate
pick_victim-IsVictim c S id v e =
    of_list (candidates c S id c.running) (λ k. candidates-in c S id k c.running) e
  where
    of_list :
        (l : List ℕ)
        → ((k : ℕ) → 0 < count k l → (0 < count k c.running) × (is_candidate c S id k ≡ true))
        → first_victim c.store l ≡ some v
        → IsVictim c S id v
    of_list [] h g = cc
    of_list (x ∷ l) h g =
        let (a, b) = h v (subst (λ k. 0 < count k (x ∷ l)) (cc g) (least_of-in c.store x l)) in
        record {
          runs = a;
          unscheduled = ground (arith, b);
          other = λ q. ground (arith, b, (==_iff v id).1 q);
        }
