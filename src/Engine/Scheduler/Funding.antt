-- ===== src/Engine/Scheduler/Funding.antt =====
-- A round of the admissions once the sequence has its blocks: it is started, or put back.
use turboserve.Prelude.{
  ℕ, ◌+◌, ◌-◌, ◌≤◌, ◌<◌, ◌≡◌, refl, sym, ap, subst, ◌∙◌, Bool, true, false, ◌||◌, List, [], ◌∷◌,
  ◌++◌, inl, inr, arith, count, count-nil, count-cons, count-append, ltb, ltb→lt, ◌==◌, Bool-cases,
  ==_iff, Result, ok, err, continue, continue-ok,
}
use turboserve.Engine.Sequence.{
  Sequence, SeqStatus, running, num_tokens, num_prompt_tokens, stamped, num_new_tokens_to_compute,
}
use turboserve.Engine.BlockManager.{BlockManager, Work}
use turboserve.Engine.BlockManager.Growth.{can_append}
use turboserve.Engine.BlockManager.Publication
use turboserve.Engine.BlockManager.Keeping.{release-IsKept}
use turboserve.Engine.WaitQueue.{contents}
use turboserve.Engine.Scheduler.{SchedulerConfig, write, work_of}
use turboserve.Engine.Scheduler.Holdings.{write-same}
use turboserve.Engine.Scheduler.Frames.{write-write}
use turboserve.Engine.Scheduler.Invariant.{IsScheduler}
use turboserve.Engine.Scheduler.Admitting.{IsFunded, release-IsOrderly, start-IsOrderly}
use turboserve.Engine.Scheduler.Step.{StepState, object, is_unsplittable, dequeue, started, emit}
use turboserve.Engine.Scheduler.Schedule.{admit_funded}
use turboserve.Engine.Scheduler.StepState.{
  IsStep, IsCarried, places, SameRequest, SameRequest-trans, write-SameRequest, IsCarried-trans,
}
use turboserve.Engine.Scheduler.Emitting.{Emits, emit-Emits}
use turboserve.Engine.Scheduler.Running.{num_new-bounds}
use turboserve.Engine.Scheduler.Admissions.{Admits, Source, can_append-le}

abbrev with_seq : BlockManager → Sequence → Work
with_seq m s = record { manager = m; seq = s }

module _ (blake2b : List ℕ → List ℕ) (config : SchedulerConfig) (size id now : ℕ) (t : SeqStatus)
    (from_preempted : Bool) (st : StepState) (v : IsStep config size st)
    (src : Source from_preempted id t st) (r : Work) (cached : ℕ)
    (f : IsFunded id t st.scheduler.block_manager st.scheduler.store st.scheduler.running
      (ok cached, r)) where
  abbrev store1 : ℕ → Sequence
  store1 = write id r.seq st.scheduler.store

  abbrev st1 : StepState
  st1 = record st { scheduler = record st.scheduler { block_manager = r.manager; store = store1 } }

  there : store1 id ≡ r.seq
  there = write-same id r.seq st.scheduler.store

  same_work : work_of id st1.scheduler ≡ r
  same_work = ap (with_seq r.manager) there

  funded-SameRequest : SameRequest (object st id) r.seq
  funded-SameRequest = record {
    request = f.kept.same_request;
    prompt = f.kept.same_prompt;
    outputs = f.kept.same_outputs;
  }

  -- A write to the sequence on top of the admission's.
  carried_by :
      (s : Sequence)
      → SameRequest r.seq s
      → (k : ℕ) → SameRequest (object st k) (write id s store1 k)
  carried_by s h k =
      subst (λ g. SameRequest (object st k) (g k)) (sym (write-write id r.seq s st.scheduler.store))
        (write-SameRequest id s st.scheduler.store (SameRequest-trans funded-SameRequest h) k)

  -- Put back.
  abbrev put_back : Result (Unit {0}) × Work → Result Bool × StepState
  put_back u =
      continue
        (
          u.0,
          record st1 {
            scheduler = record st1.scheduler {
              block_manager = u.1.manager;
              store = write id u.1.seq store1;
            };
          },
        )
        (λ x st'. (ok false, st'))

  put_back-Admits : Admits config size st (put_back (Publication.release blake2b r))
  put_back-Admits =
      let (e, o) =
        release-IsOrderly blake2b id t v.orderly r cached f src.not_running src.in_preempted
          src.in_waiting in
      let k = release-IsKept blake2b r in
      rw
        (continue-ok
          (
            (Publication.release blake2b r).0,
            record st1 {
              scheduler = record st1.scheduler {
                block_manager = (Publication.release blake2b r).1.manager;
                store = write id (Publication.release blake2b r).1.seq store1;
              };
            },
          )
          _ e)
        (record {
          more = false;
          returned = refl;
          step = record {
            orderly = o;
            same_config = v.same_config;
            same_size = k.same_size ∙ f.kept.same_size ∙ v.same_size;
            tokens = v.tokens;
            seqs = v.seqs;
            listed = v.listed;
            once = v.once;
            in_running = v.in_running;
            prefills_fit = v.prefills_fit;
            decodes_fit = v.decodes_fit;
          };
          carried = record {
            same_config = refl;
            same_index = refl;
            same_counter = refl;
            requests = carried_by _ (record {
              request = k.same_request;
              prompt = k.same_prompt;
              outputs = k.same_outputs;
            });
            same_places = λ j. refl;
          };
          spent = λ x. cc;
        })

  -- Started.
  abbrev st2 : StepState
  st2 =
      started id cached now
        (record st1 { scheduler = record st1.scheduler { preempted = src.P; waiting = src.Q } })

  abbrev s2 : Sequence
  s2 = record (store1 id) {
    status = running;
    timing = record (Sequence.timing (store1 id)) {
      t_first_scheduled = stamped (Sequence.timing (store1 id)).t_first_scheduled now;
    };
  }

  started-IsScheduler : IsScheduler st2.scheduler
  unfolding started
  started-IsScheduler =
      start-IsOrderly blake2b id t v.orderly r cached f s2 src.P src.Q
        (record {
          same_id = ap Sequence.seq_id there;
          same_table = ap Sequence.block_table there;
          progress = omega (arith, ap Sequence.num_computed_tokens there);
        })
        (record {
          sound = record {
            named = ap Sequence.seq_id there ∙ f.sound.named;
            prompted = omega (arith, f.sound.prompted, ap num_prompt_tokens there);
            computed = omega (
              arith,
              f.sound.computed,
              ap Sequence.num_computed_tokens there,
              ap num_tokens there,
            );
          };
          status_is = refl;
        })
        (ap Sequence.tenant_id there) src.not_running src.out_preempted src.out_waiting src.others
        src.queue

  started-IsStep : IsStep config size st2
  unfolding started
  started-IsStep = record {
    orderly = started-IsScheduler;
    same_config = v.same_config;
    same_size = f.kept.same_size ∙ v.same_size;
    tokens = v.tokens;
    seqs = v.seqs;
    listed = v.listed;
    once = v.once;
    in_running =
        λ k l. omega (arith, count-append k st.scheduler.running (id ∷ []), v.in_running k l);
    prefills_fit = v.prefills_fit;
    decodes_fit = v.decodes_fit;
  }

  started-IsCarried : IsCarried st.scheduler st2.scheduler
  unfolding started
  started-IsCarried = record {
    same_config = refl;
    same_index = refl;
    same_counter = refl;
    requests = carried_by s2 (record {
      request = ap Sequence.request_id there;
      prompt = ap Sequence.prompt_token_ids there;
      outputs = ap Sequence.output_token_ids there;
    });
    same_places = λ k. placed k (id == k) refl;
  }
    where
      placed :
          (k : ℕ) (b : Bool)
          → (id == k) ≡ b
          → count k (st.scheduler.running ++ id ∷ []) + count k src.P + count k (contents src.Q)
            ≡ places st.scheduler k
      placed k true e =
          subst
            (λ j.
              count j (st.scheduler.running ++ id ∷ []) + count j src.P + count j (contents src.Q)
              ≡ places st.scheduler j)
            ((==_iff id k).0 e)
            (ground (
              arith,
              count-append id st.scheduler.running (id ∷ []),
              count-cons id id [],
              count-nil id,
              src.out_preempted,
              src.out_waiting,
              src.once,
              src.not_running,
            ))
      placed k false e =
          let (a, b) = src.others k (λ q. cc (e, (==_iff id k).1 q)) in
          ground (
            arith,
            count-append k st.scheduler.running (id ∷ []),
            count-cons k id [],
            count-nil k,
            e,
            a,
            b,
          )

  abbrev wanted : ℕ
  wanted = num_new_tokens_to_compute (store1 id) st.budget.tokens

  -- After the emission.
  after_emit :
      (x : Result (Unit {0}) × StepState)
      → Emits config size id st2 x
      → Admits config size st (continue x (λ u st'. (ok true, st')))
  unfolding started
  after_emit (ok u, st') e = record {
    more = true;
    returned = refl;
    step = e.step;
    carried = IsCarried-trans started-IsCarried e.carried;
    spent = λ y. e.spent;
  }
  after_emit (err y, st') e = cc e.returned

  not_listed : count id st.scheduled_ids ≡ 0
  not_listed = elim (Bool-cases (ltb 0 (count id st.scheduled_ids))) [
    | inl e ↦ absurd (omega (arith, v.in_running id (ltb→lt 0 _ e), src.not_running))
    | inr e ↦ ground (arith, e)
  ]

  wanted-bounds :
      (wanted ≤ st.budget.tokens)
      × (Sequence.num_computed_tokens (store1 id) + wanted ≤ num_tokens (store1 id))
  wanted-bounds =
      num_new-bounds (store1 id) st.budget.tokens (
        omega (arith, f.sound.computed, ap Sequence.num_computed_tokens there, ap num_tokens there))

  has_room : can_append r.manager s2 wanted ≡ true
  unfolding can_append
  has_room =
      subst (λ (y : Sequence). can_append r.manager y wanted ≡ true) (sym there)
        (can_append-le r.manager r.seq wanted (num_tokens r.seq - r.seq.num_computed_tokens)
          (omega
            (arith, wanted-bounds.1, ap Sequence.num_computed_tokens there, ap num_tokens there))
          f.room)

  start-Admits :
      0 < wanted
      → 0 < st.budget.seqs
      → Admits config size st (
          continue (dequeue from_preempted st1) (λ u st'.
            continue (emit id wanted cached (started id cached now st')) (λ w x. (ok true, x))))
  unfolding started
  start-Admits p q =
      let (a, b) = wanted-bounds in
      rw (src.dequeues st1 refl refl) (
        after_emit (emit id wanted cached st2) (
          emit-Emits config size id wanted cached st2 started-IsStep in_it not_listed p a q
            (subst (λ (y : Sequence). y.num_computed_tokens + wanted ≤ num_tokens y)
              (sym (write-same id s2 store1)) b)
            (subst (λ (y : Sequence). can_append r.manager y wanted ≡ true)
              (sym (write-same id s2 store1)) has_room)))
    where
      in_it : 0 < count id (st.scheduler.running ++ id ∷ [])
      in_it = ground (arith, count-append id st.scheduler.running (id ∷ []), count-cons id id [])

  -- A sequence with its blocks is started or put back, and nothing is raised.
  pub admit_funded-Admits :
      0 < st.budget.seqs
      → Admits config size st (admit_funded blake2b id from_preempted now cached st1)
  unfolding admit_funded
  admit_funded-Admits q = elim (Bool-cases ((wanted == 0) || is_unsplittable st1 id wanted)) [
    | inl e ↦
        rw (e, admit_funded)
          (subst (λ w. Admits config size st (put_back (Publication.release blake2b w)))
            (sym same_work) put_back-Admits)
    | inr e ↦ rw (e, admit_funded) (start-Admits (ground (arith, e)) q)
  ]
