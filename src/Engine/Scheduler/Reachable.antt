-- ===== src/Engine/Scheduler/Reachable.antt =====
-- Any sequence of the public calls of a Scheduler (turboserve/engine/core/scheduler.py).
use turboserve.Prelude.Integers.{ℤ}
use turboserve.Prelude.{
  ℕ, ◌+◌, ◌<◌, ◌≡◌, refl, sym, subst, false, Option, none, some, List, [], inl, inr, length, arith,
  Bool-cases, Option-cases, Result, ok, Exec, continue, continue-ok, ◌==◌,
}
use turboserve.Prelude.Dict.{get}
use turboserve.Prelude.Keys.{bytes_eq}
use turboserve.Engine.PrefixCache.{is_some}
use turboserve.Engine.Sequence
use turboserve.Engine.Sequence.{
  Sequence, waiting, SamplingParams, FinishReason, is_finished, check_stop,
}
use turboserve.Engine.Scheduler.{
  Scheduler, write, add_sequence, requested, add_request, finish, abort_request, append_token,
  on_seq, stop_token,
}
use turboserve.Engine.Scheduler.StepState.{places}
use turboserve.Engine.Scheduler.Schedule.{schedule}
use turboserve.Engine.Scheduler.Requests.{queued}
use turboserve.Engine.Scheduler.Arrivals.{IsAnswer, refused, arrived, add_sequence-IsAnswer}
use turboserve.Engine.Scheduler.Live.{IsLive, arrival-IsLive}
use turboserve.Engine.Scheduler.Life.{
  longer-IsLive, append_token-Appends, finish-IsLive, schedule-IsLive, abort_request-IsAborted,
}

counted_on-IsLive :
    (c : Scheduler) → IsLive c → IsLive (record c { seq_counter = c.seq_counter + 1 })
counted_on-IsLive c v = record {
  orderly = v.orderly;
  listed = v.listed;
  queued = v.queued;
  fresh = λ k l. v.fresh k (omega (arith, l));
}

none_of : {A : Type 0} (o : Option A) → is_some o ≡ false → o ≡ none
none_of none e = refl
none_of (some a) e = cc e

answered-IsLive :
    (s : Sequence) (c : Scheduler) (f : Unit {0} → Exec Scheduler ℕ)
    (r : Result (Unit {0}) × Scheduler)
    → ((u : Unit {0}) (c' : Scheduler) → (f u c').1 ≡ c')
    → IsLive c
    → is_some (get c.by_request s.request_id) ≡ false
    → s.seq_id < c.seq_counter
    → places c s.seq_id ≡ 0
    → IsAnswer s c r
    → IsLive (continue r f).1
answered-IsLive s c f r k v e l u (refused g p) = rw p v
answered-IsLive s c f r k v e l u (arrived g p x) = rw (continue-ok r f p) (
    subst IsLive (sym (k tt r.1))
      (arrival-IsLive s v (none_of (get c.by_request s.request_id) e) l u x))

pub add_request-IsLive :
    (request_id prompt : List ℕ) (sampling : SamplingParams) (tenant : List ℕ) (priority : ℤ)
    (lora_id arrival : ℕ) (c : Scheduler)
    → IsLive c
    → IsLive (add_request request_id prompt sampling tenant priority lora_id arrival c).1
unfolding add_request requested Sequence.init
add_request-IsLive request_id prompt sampling tenant priority lora_id arrival c v =
    elim (Bool-cases (is_some (get c.by_request request_id))) [
      | inl e ↦ rw e v
      | inr e ↦ elim (Bool-cases (length prompt == 0)) [
        | inl f ↦ rw (e, f, requested) (counted_on-IsLive c v)
        | inr f ↦
            let s : Sequence = record {
              seq_id = c.seq_counter;
              request_id = request_id;
              prompt_token_ids = prompt;
              sampling = sampling;
              tenant_id = tenant;
              priority = priority;
              lora_id = lora_id;
              output_token_ids = [];
              block_table = [];
              num_computed_tokens = 0;
              status = waiting;
              finish_reason = none;
              stop_token_id = none;
              timing = record {
                t_arrival = some arrival;
                t_first_scheduled = none;
                t_first_token = none;
                t_finish = none;
                num_cached_prompt_tokens = 0;
              };
              num_preemptions = 0;
            } in
            let d : Scheduler = record c { seq_counter = c.seq_counter + 1 } in
            let unlisted = v.fresh c.seq_counter (omega arith) in
            rw (e, f, requested)
              (answered-IsLive s d (λ u (c' : Scheduler). (ok c.seq_counter, c')) (add_sequence s d)
                (λ u c'. refl) (counted_on-IsLive c v) e (omega arith) unlisted
                (add_sequence-IsAnswer s d v.orderly (record {
                  prompted = ground (arith, f);
                  no_blocks = refl;
                  computed = omega arith;
                  unlisted = unlisted;
                })))
      ]
    ]

-- It returns, with a scheduler in order.
pub record Continues (r : Result (Option FinishReason) × Scheduler) : Type 0 where
  pub reason : Option FinishReason
  pub returned : r.0 ≡ ok reason
  pub valid : IsLive r.1

module _ (blake2b : List ℕ → List ℕ) where
  -- For a queued sequence, of a scheduler in order, `append_token` raises nothing and keeps the order.
  pub append_token-Continues :
      (id token : ℕ) (eos : Option ℕ) (now : ℕ) (c : Scheduler)
      → IsLive c
      → 0 < places c id
      → Continues (append_token blake2b id token eos now c)
  unfolding append_token
  append_token-Continues id token eos now c v h =
      let a = append_token-Appends token now (c.store id) (queued blake2b id c v.orderly h).1 in
      let t = (Sequence.append_token token now (c.store id)).1 in
      let d : Scheduler = record c { store = write id t c.store } in
      let live : IsLive d = longer-IsLive id t c v a.longer in
      rw (continue-ok (on_seq id (Sequence.append_token token now) c) _ a.returned)
        (elim (Option-cases (check_stop (d.store id) token eos)) [
          | inl e ↦ rw e (record { reason = none; returned = refl; valid = live })
          | inr (reason, e) ↦
              let (f, g) =
                finish-IsLive blake2b id reason (stop_token blake2b reason token) now d live h in
              rw e (
                rw
                  (continue-ok (finish blake2b id reason (stop_token blake2b reason token) now d) _
                    f)
                  (record { reason = some reason; returned = refl; valid = g }))
        ])

  -- The calls, of `finish` and `append_token` for a queued sequence.
  pub data Reach (c : Scheduler) : Scheduler → Type 0 where
    here : Reach c c
    adds :
        {d : Scheduler} (request_id prompt : List ℕ) (sampling : SamplingParams) (tenant : List ℕ)
        (priority : ℤ) (lora_id arrival : ℕ)
        → Reach c d
        → Reach c (add_request request_id prompt sampling tenant priority lora_id arrival d).1
    schedules : {d : Scheduler} (now : ℕ) → Reach c d → Reach c (schedule blake2b now d).1
    appends :
        {d : Scheduler} (id token : ℕ) (eos : Option ℕ) (now : ℕ)
        → Reach c d
        → 0 < places d id
        → Reach c (append_token blake2b id token eos now d).1
    finishes :
        {d : Scheduler} (id : ℕ) (reason : FinishReason) (stop : Option ℕ) (now : ℕ)
        → Reach c d
        → 0 < places d id
        → Reach c (finish blake2b id reason stop now d).1
    aborts :
        {d : Scheduler} (request_id : List ℕ) (now : ℕ)
        → Reach c d
        → Reach c (abort_request blake2b request_id now d).1

  -- The calls keep the order of a scheduler.
  pub Reach-IsLive : {c d : Scheduler} → Reach c d → IsLive c → IsLive d
  Reach-IsLive here v = v
  Reach-IsLive (adds r p s t q l a w) v = add_request-IsLive r p s t q l a _ (Reach-IsLive w v)
  Reach-IsLive (schedules now w) v = schedule-IsLive blake2b now _ (Reach-IsLive w v)
  Reach-IsLive (appends id token eos now w h) v =
      (append_token-Continues id token eos now _ (Reach-IsLive w v) h).valid
  Reach-IsLive (finishes id reason stop now w h) v =
      (finish-IsLive blake2b id reason stop now _ (Reach-IsLive w v) h).1
  Reach-IsLive (aborts r now w) v =
      (abort_request-IsAborted blake2b r now _ (Reach-IsLive w v)).valid
