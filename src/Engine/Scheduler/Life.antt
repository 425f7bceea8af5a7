-- ===== src/Engine/Scheduler/Life.antt =====
-- The public calls of a Scheduler (turboserve/engine/core/scheduler.py), one after the other.
use turboserve.Prelude.{
  ℕ, ◌≤◌, ◌<◌, ◌≡◌, refl, sym, ap, subst, ◌∙◌, Bool, true, false, Option, none, some, List, [], ◌∷◌,
  inl, inr, length, length-append, arith, Option-cases, Result, ok, continue-ok,
}
use turboserve.Prelude.Dict.{Dict, get, remove, get-remove}
use turboserve.Prelude.Keys.{bytes_eq, bytes_beq_iff}
use turboserve.Engine.PrefixCache.{is_some}
use turboserve.Engine.Sequence
use turboserve.Engine.Sequence.{
  Sequence, SamplingParams, FinishReason, waiting, running, preempted, abort, is_finished,
  num_tokens, num_prompt_tokens, check_stop,
}
use turboserve.Engine.Scheduler.{Scheduler, write, finish, abort_request}
use turboserve.Engine.Scheduler.Frames.{SameBlocks, touch}
use turboserve.Engine.Scheduler.Invariant.{IsSound, IsScheduler, move-IsOrderly, write_all}
use turboserve.Engine.Scheduler.StepState.{places}
use turboserve.Engine.Scheduler.Schedule.{schedule}
use turboserve.Engine.Scheduler.Scheduling.{schedule-IsBatch}
use turboserve.Engine.Scheduler.Requests.{finish-IsGone}
use turboserve.Engine.Scheduler.Live.{IsLive, carried-IsLive, gone-IsLive}

-- One more token of a queued sequence: its place and blocks stay.
pub record IsLonger (s t : Sequence) : Type 0 where
  same_blocks : SameBlocks s t
  same_progress : t.num_computed_tokens ≡ s.num_computed_tokens
  same_status : t.status ≡ s.status
  same_tenant : t.tenant_id ≡ s.tenant_id
  same_request : t.request_id ≡ s.request_id
  same_prompt : t.prompt_token_ids ≡ s.prompt_token_ids
  longer : length s.output_token_ids ≤ length t.output_token_ids

longer-IsOrderly :
    (id : ℕ) (t : Sequence) (c : Scheduler)
    → IsScheduler c
    → IsLonger (c.store id) t
    → IsScheduler (record c { store = write id t c.store })
longer-IsOrderly id t c v x =
    move-IsOrderly id t c.block_manager c.block_manager c.store c.running c.running c.preempted
      c.preempted c.waiting c.waiting
      (record {
        holding = touch id t v.holding x.same_blocks;
        kept_size = refl;
        kept_cache = refl;
        kept_tenant = x.same_tenant;
        others = λ k n. (refl, refl, refl);
        once = v.once id;
        runs = λ l.
            let r = v.runs id l in
            record { sound = sound_after r.sound; status_is = x.same_status ∙ r.status_is };
        resumes = λ l.
            let r = v.resumes id l in
            record {
              sound = sound_after r.sound;
              status_is = x.same_status ∙ r.status_is;
              empty = x.same_blocks.same_table ∙ r.empty;
            };
        waits = λ l.
            let r = v.waits id l in
            record {
              sound = sound_after r.sound;
              status_is = x.same_status ∙ r.status_is;
              empty = x.same_blocks.same_table ∙ r.empty;
            };
        queue = v.queue;
      })
      v
  where
    sound_after : IsSound id (c.store id) → IsSound id t
    sound_after s = record {
      named = x.same_blocks.same_id ∙ s.named;
      prompted = omega (arith, s.prompted, ap length x.same_prompt);
      computed = omega (arith, s.computed, x.same_progress, x.longer, ap length x.same_prompt);
    }

pub longer-IsLive :
    (id : ℕ) (t : Sequence) (c : Scheduler)
    → IsLive c
    → IsLonger (c.store id) t
    → IsLive (record c { store = write id t c.store })
longer-IsLive id t c v x = record {
  orderly = longer-IsOrderly id t c v.orderly x;
  listed = λ k h. subst (λ r. get c.by_request r ≡ some k) (sym (request k)) (v.listed k h);
  queued = λ r k e. let (h, g) = v.queued r k e in (h, request k ∙ g);
  fresh = v.fresh;
}
  where
    request : (k : ℕ) → Sequence.request_id (write id t c.store k) ≡ Sequence.request_id (c.store k)
    request k =
        write_all (λ j s. Sequence.request_id s ≡ Sequence.request_id (c.store j)) id t c.store k
          (λ p. x.same_request) (λ p. refl)

-- The sequence that `append_token` leaves.
pub record Appends (s : Sequence) (r : Result (Unit {0}) × Sequence) : Type 0 where
  pub returned : r.0 ≡ ok tt
  pub longer : IsLonger s r.1

pub append_token-Appends :
    (token now : ℕ) (s : Sequence)
    → is_finished s ≡ false
    → Appends s (Sequence.append_token token now s)
unfolding Sequence.append_token
append_token-Appends token now s e = rw e (record {
  returned = refl;
  longer = record {
    same_blocks = record { same_id = refl; same_table = refl; progress = omega arith };
    same_progress = refl;
    same_status = refl;
    same_tenant = refl;
    same_request = refl;
    same_prompt = refl;
    longer = omega (arith, length-append s.output_token_ids (token ∷ []));
  };
})

-- What `abort` does.
pub record IsAborted (request_id : List ℕ) (c : Scheduler) (r : Result Bool × Scheduler)
    : Type 0 where
  pub returned : r.0 ≡ ok (is_some (get c.by_request request_id))
  pub valid : IsLive r.1
  pub unknown : get r.1.by_request request_id ≡ none

module _ (blake2b : List ℕ → List ℕ) where
  pub finish-IsLive :
      (id : ℕ) (reason : FinishReason) (stop : Option ℕ) (now : ℕ) (c : Scheduler)
      → IsLive c
      → 0 < places c id
      → ((finish blake2b id reason stop now c).0 ≡ ok tt)
        × IsLive (finish blake2b id reason stop now c).1
  finish-IsLive id reason stop now c v h =
      let (e, g) = finish-IsGone blake2b id reason stop now c v.orderly h in
      (e, gone-IsLive id reason v h g)

  pub schedule-IsLive : (now : ℕ) (c : Scheduler) → IsLive c → IsLive (schedule blake2b now c).1
  schedule-IsLive now c v =
      let b = schedule-IsBatch blake2b now c v.orderly in carried-IsLive v b.valid b.carried

  -- Of a scheduler in order, `abort` raises nothing, returns whether the request was in flight, and
  -- leaves the scheduler in order and without the request.
  pub abort_request-IsAborted :
      (request_id : List ℕ) (now : ℕ) (c : Scheduler)
      → IsLive c
      → IsAborted request_id c (abort_request blake2b request_id now c)
  unfolding abort_request
  abort_request-IsAborted request_id now c v = elim (Option-cases (get c.by_request request_id)) [
    | inl e ↦ rw (e, abort_request) (record { returned = rw e refl; valid = v; unknown = e })
    | inr (id, e) ↦
        let (h, q) = v.queued request_id id e in
        let (f, g) = finish-IsGone blake2b id abort none now c v.orderly h in
        rw (e, abort_request)
          (rw
            (continue-ok (finish blake2b id abort none now c) (λ u (c' : Scheduler). (ok true, c'))
              f)
            (record {
              returned = rw e refl;
              valid = gone-IsLive id abort v h g;
              unknown =
                  subst (λ i. get i request_id ≡ none) (sym g.index_is)
                    (subst (λ r. get (remove c.by_request r) request_id ≡ none) (sym q)
                      (removed c.by_request request_id));
            }))
  ]
    where
      removed : (index : Dict (List ℕ) ℕ) (r : List ℕ) → get (remove index r) r ≡ none
      removed index r = ground (arith, get-remove index r r, bytes_beq_iff r r)
