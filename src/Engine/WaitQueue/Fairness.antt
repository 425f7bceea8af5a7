-- ===== src/Engine/WaitQueue/Fairness.antt =====
-- Weighted fair queueing of _WaitQueue (turboserve/engine/core/scheduler.py): how long a tenant may wait.
use native.Mathlib.Nat.{zero-add}
use turboserve.Prelude.{
  zero, suc, ℕ, ◌+◌, ◌*◌, ◌≤◌, ◌<◌, ◌≡◌, ◌≢◌, ap, refl, sym, subst, ◌∙◌, Bool, true, false, Option,
  none, some, List, [], ◌∷◌, ◌++◌, arith, max, if◌then◌else◌,
}
use turboserve.Prelude.Dict.{get, put, get-put}
use turboserve.Prelude.Keys.{bytes_eq, bytes_beq, bytes_beq_iff}
use turboserve.Engine.PrefixCache.{is_some}
use turboserve.Engine.Sequence.{Sequence}
use turboserve.Engine.WaitQueue.{
  WaitQueue, Tenant, next_tenant, pop, pop_by, pop_next, pop_from, charged, push, push_by, push_to,
  charge_of, time_of, get_default,
}
use turboserve.Engine.WaitQueue.Backlogs.{AreBacklogs, get-IsBacklog, next_in-is_some}
use turboserve.Engine.WaitQueue.Contents.{IsQueue, push-IsExchange, fair-AreBacklogs, pop-IsQueue}
use turboserve.Engine.WaitQueue.Times.{
  next_in-le, time_of-put, keep_queue-other, grow, once_more, times,
}

module _ (tenant_of : ℕ → Tenant) where
  -- A run of pushes and pops under `tenant_fair`, with the tenants that were served, the last one
  -- first.
  pub data Run (q : WaitQueue) : WaitQueue → List Tenant → Type 0 where
    start : Run q q []
    pushes :
        {r : WaitQueue} {l : List Tenant} (s : Sequence)
        → Run q r l
        → tenant_of s.seq_id ≡ s.tenant_id
        → Run q (push s r) l
    pops :
        {r : WaitQueue} {l : List Tenant} (w : Tenant)
        → Run q r l
        → next_tenant r ≡ some w
        → Run q (pop r).1 (w ∷ l)

  -- While `t` waits and `u` is served `k` times.
  record Waits (t u : Tenant) (k : ℕ) (q r : WaitQueue) : Type 0 where
    fair : r.tenant_fair ≡ true
    queue : IsQueue tenant_of r
    there : is_some (get r.queues t) ≡ true
    same : time_of r.vtime t ≡ time_of q.vtime t
    same_charge : charge_of r u ≡ charge_of q u
    grown : time_of q.vtime u + k * charge_of q u ≤ time_of r.vtime u
    bounded : 0 < k → time_of q.vtime u + k * charge_of q u ≤ time_of q.vtime t + charge_of q u

  -- What one step may do to the queues and the virtual times, for a waiting tenant `t`.
  record Moves (t u : Tenant) (served : ℕ) (q r : WaitQueue) : Type 0 where
    fair : r.tenant_fair ≡ q.tenant_fair
    once : served ≤ 1
    there : is_some (get q.queues t) ≡ true → is_some (get r.queues t) ≡ true
    same : is_some (get q.queues t) ≡ true → time_of r.vtime t ≡ time_of q.vtime t
    same_charge : charge_of r u ≡ charge_of q u
    grown : time_of q.vtime u + served * charge_of q u ≤ time_of r.vtime u
    least_served :
        0 < served → is_some (get q.queues t) ≡ true → time_of q.vtime u ≤ time_of q.vtime t

  push_to-Moves :
      (o : Option (List ℕ)) (s : Sequence) (t u : Tenant) (q : WaitQueue)
      → get q.queues s.tenant_id ≡ o
      → Moves t u 0 q (push_to o s q)
  unfolding push_to
  push_to-Moves (some l) s t u q e = record {
    fair = refl;
    once = omega arith;
    there = λ h. ground (arith, get-put q.queues s.tenant_id t (l ++ s.seq_id ∷ []));
    same = λ h. refl;
    same_charge = refl;
    grown = omega arith;
    least_served = λ h g. absurd (omega arith);
  }
  push_to-Moves none s t u q e = record {
    fair = refl;
    once = omega arith;
    there = λ h. ground (arith, get-put q.queues s.tenant_id t (s.seq_id ∷ []));
    same = λ h. other_time (bytes_beq s.tenant_id t) refl h;
    same_charge = refl;
    grown = later_time (bytes_beq s.tenant_id u) refl;
    least_served = λ h g. absurd (omega arith);
  }
    where
      other_time :
          (b : Bool)
          → bytes_beq s.tenant_id t ≡ b
          → is_some (get q.queues t) ≡ true
          → time_of (put q.vtime s.tenant_id (max (time_of q.vtime s.tenant_id) q.now)) t
            ≡ time_of q.vtime t
      other_time true g h = cc (
        subst (λ k. is_some (get q.queues k) ≡ true) (sym ((bytes_beq_iff s.tenant_id t).0 g)) h,
        e,
      )
      other_time false g h =
          ground
            (arith, time_of-put q.vtime s.tenant_id t (max (time_of q.vtime s.tenant_id) q.now), g)

      later_time :
          (b : Bool)
          → bytes_beq s.tenant_id u ≡ b
          → time_of q.vtime u + 0 * charge_of q u
            ≤ time_of (put q.vtime s.tenant_id (max (time_of q.vtime s.tenant_id) q.now)) u
      later_time true g = ground (
        arith,
        time_of-put q.vtime s.tenant_id u (max (time_of q.vtime s.tenant_id) q.now),
        g,
        ap (time_of q.vtime) ((bytes_beq_iff s.tenant_id u).0 g),
      )
      later_time false g =
          ground
            (arith, time_of-put q.vtime s.tenant_id u (max (time_of q.vtime s.tenant_id) q.now), g)

  push-Moves :
      (s : Sequence) (t u : Tenant) (q : WaitQueue)
      → q.tenant_fair ≡ true
      → Moves t u 0 q (push s q)
  unfolding push push_by
  push-Moves s t u q f =
      subst (λ b. Moves t u 0 q (push_by b s q)) (sym f)
        (push_to-Moves (get q.queues s.tenant_id) s t u q refl)

  charged-Moves :
      (o : Option ℕ) (w : Tenant) (x : ℕ) (xs : List ℕ) (t u : Tenant) (q : WaitQueue)
      → get q.vtime w ≡ o
      → is_some o ≡ true
      → w ≢ t
      → time_of q.vtime w ≤ time_of q.vtime t
      → Moves t u (if bytes_beq w u then 1 else 0) q (charged w x xs o q).1
  unfolding charged
  charged-Moves none w x xs t u q e h n l = cc
  charged-Moves (some v) w x xs t u q e h n l = record {
    fair = refl;
    once = ground arith;
    there = keep_queue-other w t xs q.queues n;
    same = λ g. ground (arith, time_of-put q.vtime w t (v + charge_of q w), bytes_beq_iff w t, n);
    same_charge = refl;
    grown = charged_time (bytes_beq w u) refl;
    least_served = λ k g. served (bytes_beq w u) refl k;
  }
    where
      now_is : time_of q.vtime w ≡ v
      now_is = ap (λ o. get_default o 0) e

      charged_time :
          (b : Bool)
          → bytes_beq w u ≡ b
          → time_of q.vtime u + (if b then 1 else 0) * charge_of q u
            ≤ time_of (put q.vtime w (v + charge_of q w)) u
      charged_time true g =
          let p = (bytes_beq_iff w u).0 g in
          ground (
            arith,
            time_of-put q.vtime w u (v + charge_of q w),
            g,
            now_is,
            ap (time_of q.vtime) p,
            ap (charge_of q) p,
          )
      charged_time false g = ground (arith, time_of-put q.vtime w u (v + charge_of q w), g)

      served :
          (b : Bool)
          → bytes_beq w u ≡ b
          → 0 < (if b then 1 else 0)
          → time_of q.vtime u ≤ time_of q.vtime t
      served true g k =
          subst (λ a. time_of q.vtime a ≤ time_of q.vtime t) ((bytes_beq_iff w u).0 g) l
      served false g k = absurd (omega arith)

  pop_from-Moves :
      (o : Option (List ℕ)) (w t u : Tenant) (q : WaitQueue)
      → get q.queues w ≡ o
      → is_some o ≡ true
      → AreBacklogs tenant_of q.vtime q.queues
      → w ≢ t
      → time_of q.vtime w ≤ time_of q.vtime t
      → Moves t u (if bytes_beq w u then 1 else 0) q (pop_from w o q).1
  unfolding pop_from
  pop_from-Moves none w t u q e h v n l = cc
  pop_from-Moves (some []) w t u q e h v n l =
      absurd (omega (arith, (get-IsBacklog tenant_of q.vtime q.queues w [] v e).waits))
  pop_from-Moves (some (x ∷ xs)) w t u q e h v n l =
      charged-Moves (get q.vtime w) w x xs t u q refl
        (get-IsBacklog tenant_of q.vtime q.queues w (x ∷ xs) v e).timed n l

  pop-Moves :
      (w t u : Tenant) (q : WaitQueue)
      → q.tenant_fair ≡ true
      → IsQueue tenant_of q
      → next_tenant q ≡ some w
      → w ≢ t
      → is_some (get q.queues t) ≡ true
      → Moves t u (if bytes_beq w u then 1 else 0) q (pop q).1
  unfolding pop pop_by pop_next
  pop-Moves w t u q f v e n h =
      subst (λ b. Moves t u served q (pop_by b q).1) (sym f)
        (subst (λ o. Moves t u served q (pop_next o q).1) (sym e)
          (pop_from-Moves (get q.queues w) w t u q refl (next_in-is_some q.vtime q.queues w e)
            (fair-AreBacklogs tenant_of q f v) n (next_in-le q.vtime q.queues w t e h)))
    where
      served : ℕ
      served = if bytes_beq w u then 1 else 0

  step-Waits :
      (t u : Tenant) (k n : ℕ) (q r p : WaitQueue)
      → IsQueue tenant_of p
      → Moves t u n r p
      → Waits t u k q r
      → Waits t u (n + k) q p
  step-Waits t u k n q r p v m w = record {
    fair = m.fair ∙ w.fair;
    queue = v;
    there = m.there w.there;
    same = m.same w.there ∙ w.same;
    same_charge = m.same_charge ∙ w.same_charge;
    grown =
        grow (time_of q.vtime u) (time_of r.vtime u) (time_of p.vtime u) k n (charge_of q u) w.grown
          (subst (λ c. time_of r.vtime u + n * c ≤ time_of p.vtime u) w.same_charge m.grown);
    bounded = bounded_next n m.once m.least_served;
  }
    where
      bounded_next :
          (j : ℕ)
          → j ≤ 1
          → (0 < j → is_some (get r.queues t) ≡ true → time_of r.vtime u ≤ time_of r.vtime t)
          → 0 < j + k
          → time_of q.vtime u + (j + k) * charge_of q u ≤ time_of q.vtime t + charge_of q u
      bounded_next zero l h g = rw zero-add (w.bounded (omega arith))
      bounded_next (suc zero) l h g =
          once_more (time_of q.vtime u) (time_of r.vtime u) (time_of q.vtime t) k (charge_of q u)
            w.grown (omega (arith, h (omega arith) w.there, w.same))
      bounded_next (suc (suc j)) l h g = absurd (omega arith)

  -- While a tenant `t` waits and is not served, another tenant's virtual time stays within its charge
  -- of that of `t`.
  Run-Waits :
      (t u : Tenant) {q r : WaitQueue} {l : List Tenant}
      → q.tenant_fair ≡ true
      → IsQueue tenant_of q
      → is_some (get q.queues t) ≡ true
      → Run q r l
      → times t l ≡ 0
      → Waits t u (times u l) q r
  unfolding times
  Run-Waits t u f v h start z = record {
    fair = f;
    queue = v;
    there = h;
    same = refl;
    same_charge = refl;
    grown = omega arith;
    bounded = λ k. absurd (omega arith);
  }
  Run-Waits t u {q} f v h (pushes {r} {l} s st e) z =
      let w = Run-Waits t u f v h st z in
      subst (λ k. Waits t u k q (push s r)) (zero-add _)
        (step-Waits t u (times u l) 0 q r (push s r) (push-IsExchange tenant_of s r e w.queue).queue
          (push-Moves s t u r w.fair) w)
  Run-Waits t u {q} f v h (pops {r} {l} a st e) z =
      let w = Run-Waits t u f v h st (ground arith) in
      step-Waits t u (times u l) (if bytes_beq a u then 1 else 0) q r (pop r).1
        (pop-IsQueue tenant_of r w.queue)
        (pop-Moves a t u r w.fair w.queue e (λ p. other p) w.there) w
    where
      other : a ≡ t → ⊥
      other p = ground (arith, (bytes_beq_iff a t).1 p)

  -- Under `tenant_fair`, of a queue in order where requests of a tenant `t` wait: as long as none of
  -- them is served, however requests are pushed and popped, another tenant `u` that is served has been
  -- charged at most its lag behind `t` at the start and one charge more.
  pub Run-bounded :
      (t u : Tenant) {q r : WaitQueue} {l : List Tenant}
      → q.tenant_fair ≡ true
      → IsQueue tenant_of q
      → is_some (get q.queues t) ≡ true
      → Run q r l
      → times t l ≡ 0
      → 0 < times u l
      → time_of q.vtime u + times u l * charge_of q u ≤ time_of q.vtime t + charge_of q u
  Run-bounded t u f v h st z k = (Run-Waits t u f v h st z).bounded k
