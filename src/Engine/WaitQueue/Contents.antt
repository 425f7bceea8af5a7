-- ===== src/Engine/WaitQueue/Contents.antt =====
-- What _WaitQueue (turboserve/engine/core/scheduler.py) holds, under either policy.
use turboserve.Prelude.{
  ℕ, ◌+◌, ◌<◌, ◌≡◌, ap, refl, sym, subst, ◌∙◌, Bool, true, false, Option, none, some, List, [], ◌∷◌,
  ◌++◌, arith, length, length-append, count, count-append, count-nil, count-cons, ◌==◌, lt→ltb,
  if◌then◌else◌, Result, ok, err, index_error,
}
use turboserve.Prelude.Dict.{Dict, get, put, get-put}
use turboserve.Prelude.Keys.{bytes_eq, bytes_beq_iff}
use turboserve.Engine.PrefixCache.{is_some}
use turboserve.Engine.Sequence.{Sequence}
use turboserve.Engine.WaitQueue.{
  WaitQueue, Tenant, next_tenant, first, peek, pop, pop_from, pop_fifo, charged, push, push_to,
  push_by, pop_by, peek_by, peek_next, pop_next, front, size_by, remove_by, contents_by, remove_seq,
  remove_from, remove_first, entries, contents, size, get_default,
}
use turboserve.Engine.WaitQueue.Backlogs.{
  AreBacklogs, get-IsBacklog, put-AreBacklogs, AreBacklogs-later, keep_queue-AreBacklogs,
  count-entries-put, count-entries-put_new, count-keep_queue, count-entries, next_in-is_some,
  next_in-none, length-entries,
}

timed_later :
    (vtime : Dict Tenant ℕ) (t u : Tenant) (v : ℕ)
    → is_some (get vtime u) ≡ true
    → is_some (get (put vtime t v) u) ≡ true
timed_later vtime t u v h = ground (arith, get-put vtime t u v, h)

timed_now : (vtime : Dict Tenant ℕ) (t : Tenant) (v : ℕ) → is_some (get (put vtime t v) t) ≡ true
timed_now vtime t v = ground (arith, get-put vtime t t v, bytes_beq_iff t t)

pub count-remove_first :
    (a b : ℕ) (xs : List ℕ)
    → 0 < count a xs
    → count b xs ≡ (if a == b then 1 else 0) + count b (remove_first a xs)
unfolding count remove_first
count-remove_first a b [] h = absurd (omega arith)
count-remove_first a b (x ∷ xs) h = ground (arith, count-remove_first a b xs)

module _ (tenant_of : ℕ → Tenant) where
  -- Under `tenant_fair`, the dict of queues is in order.
  abbrev pub Backlogged : Bool → WaitQueue → Type 0
  Backlogged true q = AreBacklogs tenant_of q.vtime q.queues
  Backlogged false q = Unit

  pub record IsQueue (q : WaitQueue) : Type 0 where
    pub backlogged : Backlogged q.tenant_fair q

  pub fair-AreBacklogs :
      (q : WaitQueue) → q.tenant_fair ≡ true → IsQueue q → AreBacklogs tenant_of q.vtime q.queues
  fair-AreBacklogs q f v = subst (λ b. Backlogged b q) f v.backlogged

  -- From `q` to `r`, the requests `out` leave and the requests `into` arrive.
  pub record IsExchange (q : WaitQueue) (out into : List ℕ) (r : WaitQueue) : Type 0 where
    pub queue : IsQueue r
    pub counted : (a : ℕ) → count a (contents r) + count a out ≡ count a (contents q) + count a into

  -- The same under a policy.
  record Exchanges (b : Bool) (q : WaitQueue) (out into : List ℕ) (r : WaitQueue) : Type 0 where
    same_policy : r.tenant_fair ≡ q.tenant_fair
    backlogged : Backlogged b r
    counted :
        (a : ℕ) → count a (contents_by b r) + count a out ≡ count a (contents_by b q) + count a into

  exchanged :
      (q r : WaitQueue) (out into : List ℕ)
      → Exchanges q.tenant_fair q out into r
      → IsExchange q out into r
  unfolding contents
  exchanged q r out into x = record {
    queue = record { backlogged = subst (λ b. Backlogged b r) (sym x.same_policy) x.backlogged };
    counted = λ a. ap (λ b. count a (contents_by b r) + count a out) x.same_policy ∙ x.counted a;
  }

  append_filed :
      (l : List ℕ) (x : ℕ) (t : Tenant)
      → tenant_of x ≡ t
      → ((a : ℕ) → 0 < count a l → tenant_of a ≡ t)
      → (a : ℕ) → 0 < count a (l ++ x ∷ [])
      → tenant_of a ≡ t
  append_filed l x t e h a k =
      ground (arith, count-append a l (x ∷ []), h a, count-cons a x [], count-nil a)

  push_to-Exchanges :
      (o : Option (List ℕ)) (s : Sequence) (q : WaitQueue)
      → get q.queues s.tenant_id ≡ o
      → tenant_of s.seq_id ≡ s.tenant_id
      → Backlogged true q
      → Exchanges true q [] (s.seq_id ∷ []) (push_to o s q)
  unfolding push_to contents_by
  push_to-Exchanges (some l) s q e t v =
      let b = get-IsBacklog tenant_of q.vtime q.queues s.tenant_id l v e in
      record {
        same_policy = refl;
        backlogged =
            put-AreBacklogs tenant_of q.vtime q.queues s.tenant_id (l ++ s.seq_id ∷ []) v (record {
              waits = omega (arith, length-append l (s.seq_id ∷ []));
              timed = b.timed;
              filed = append_filed l s.seq_id s.tenant_id t b.filed;
            });
        counted = λ a. omega (
          arith,
          count-entries-put q.queues s.tenant_id l (l ++ s.seq_id ∷ []) a e,
          count-append a l (s.seq_id ∷ []),
          count-nil a,
        );
      }
  push_to-Exchanges none s q e t v = record {
    same_policy = refl;
    backlogged =
        put-AreBacklogs tenant_of _ q.queues s.tenant_id (s.seq_id ∷ [])
          (AreBacklogs-later tenant_of q.vtime _ q.queues (λ u. timed_later q.vtime s.tenant_id u _)
            v)
          (record {
            waits = omega arith;
            timed = timed_now q.vtime s.tenant_id _;
            filed =
                append_filed [] s.seq_id s.tenant_id t (λ a h. absurd (omega (arith, count-nil a)));
          });
    counted = λ a.
        omega (arith, count-entries-put_new q.queues s.tenant_id (s.seq_id ∷ []) a e, count-nil a);
  }

  push_by-Exchanges :
      (b : Bool) (s : Sequence) (q : WaitQueue)
      → tenant_of s.seq_id ≡ s.tenant_id
      → Backlogged b q
      → Exchanges b q [] (s.seq_id ∷ []) (push_by b s q)
  unfolding push_by contents_by
  push_by-Exchanges true s q t v = push_to-Exchanges (get q.queues s.tenant_id) s q refl t v
  push_by-Exchanges false s q t v = record {
    same_policy = refl;
    backlogged = tt;
    counted = λ a. omega (arith, count-append a q.fifo (s.seq_id ∷ []), count-nil a);
  }

  -- Under either policy, `push` adds exactly the request and keeps the queue in order.
  pub push-IsExchange :
      (s : Sequence) (q : WaitQueue)
      → tenant_of s.seq_id ≡ s.tenant_id
      → IsQueue q
      → IsExchange q [] (s.seq_id ∷ []) (push s q)
  unfolding push
  push-IsExchange s q t v =
      exchanged q _ [] (s.seq_id ∷ []) (push_by-Exchanges q.tenant_fair s q t v.backlogged)

  -- A queued request stands in its tenant's queue.
  held :
      (o : Option (List ℕ)) (s : Sequence) (q : WaitQueue)
      → get q.queues s.tenant_id ≡ o
      → tenant_of s.seq_id ≡ s.tenant_id
      → 0 < count s.seq_id (entries q.queues)
      → Backlogged true q
      → 0 < count s.seq_id (get_default o [])
  held o s q e t h v = ground (
    arith,
    count-entries tenant_of q.vtime q.queues s.seq_id v,
    ap (λ k. count s.seq_id (get_default (get q.queues k) [])) t,
    ap (λ k. count s.seq_id (get_default k [])) e,
  )

  remove_from-Exchanges :
      (o : Option (List ℕ)) (s : Sequence) (q : WaitQueue)
      → get q.queues s.tenant_id ≡ o
      → 0 < count s.seq_id (get_default o [])
      → Backlogged true q
      → ((remove_from o s q).0 ≡ true) × Exchanges true q (s.seq_id ∷ []) [] (remove_from o s q).1
  unfolding remove_from contents_by
  remove_from-Exchanges none s q e h v = absurd (omega (arith, count-nil s.seq_id))
  remove_from-Exchanges (some l) s q e h v =
      let b = get-IsBacklog tenant_of q.vtime q.queues s.tenant_id l v e in
      rw (lt→ltb 0 (count s.seq_id l) h) (
        refl,
        record {
          same_policy = refl;
          backlogged =
              keep_queue-AreBacklogs tenant_of q.vtime q.queues s.tenant_id
                (remove_first s.seq_id l) v b.timed
                (λ a k. b.filed a (omega (arith, count-remove_first s.seq_id a l h, k)));
          counted = λ a. omega (
            arith,
            count-keep_queue tenant_of q.vtime q.queues s.tenant_id l (remove_first s.seq_id l) a v
                e,
            count-remove_first s.seq_id a l h,
            count-cons a s.seq_id [],
            count-nil a,
          );
        },
      )

  remove_by-Exchanges :
      (b : Bool) (s : Sequence) (q : WaitQueue)
      → tenant_of s.seq_id ≡ s.tenant_id
      → 0 < count s.seq_id (contents_by b q)
      → Backlogged b q
      → ((remove_by b s q).0 ≡ true) × Exchanges b q (s.seq_id ∷ []) [] (remove_by b s q).1
  unfolding remove_by contents_by
  remove_by-Exchanges true s q t h v =
      remove_from-Exchanges (get q.queues s.tenant_id) s q refl (held _ s q refl t h v) v
  remove_by-Exchanges false s q t h v = rw (lt→ltb 0 (count s.seq_id q.fifo) h) (
    refl,
    record {
      same_policy = refl;
      backlogged = tt;
      counted = λ a.
          omega
            (arith, count-remove_first s.seq_id a q.fifo h, count-cons a s.seq_id [], count-nil a);
    },
  )

  -- Under either policy, `remove` of a queued request finds it, takes it out once and keeps the
  -- queue in order.
  pub remove_seq-IsExchange :
      (s : Sequence) (q : WaitQueue)
      → tenant_of s.seq_id ≡ s.tenant_id
      → 0 < count s.seq_id (contents q)
      → IsQueue q
      → ((remove_seq s q).0 ≡ true) × IsExchange q (s.seq_id ∷ []) [] (remove_seq s q).1
  unfolding remove_seq contents
  remove_seq-IsExchange s q t h v =
      let (e, x) = remove_by-Exchanges q.tenant_fair s q t h v.backlogged in
      (e, exchanged q _ (s.seq_id ∷ []) [] x)

  -- What `peek` and `pop` may return: nothing is left, or both name the same request.
  data Hands (b : Bool) (q : WaitQueue) (p : Result (Option ℕ)) (r : Result ℕ × WaitQueue)
      : Type 0 where
    nobody : contents_by b q ≡ [] → p ≡ ok none → r ≡ (err index_error, q) → Hands b q p r
    hands : (x : ℕ) → p ≡ ok (some x) → r.0 ≡ ok x → Exchanges b q (x ∷ []) [] r.1 → Hands b q p r

  charged-Exchanges :
      (o : Option ℕ) (t : Tenant) (x : ℕ) (xs : List ℕ) (q : WaitQueue)
      → get q.vtime t ≡ o
      → get q.queues t ≡ some (x ∷ xs)
      → Backlogged true q
      → ((charged t x xs o q).0 ≡ ok x) × Exchanges true q (x ∷ []) [] (charged t x xs o q).1
  unfolding charged contents_by
  charged-Exchanges none t x xs q f e v =
      cc (f, (get-IsBacklog tenant_of q.vtime q.queues t (x ∷ xs) v e).timed)
  charged-Exchanges (some n) t x xs q f e v =
      let b = get-IsBacklog tenant_of q.vtime q.queues t (x ∷ xs) v e in
      (
        refl,
        record {
          same_policy = refl;
          backlogged =
              keep_queue-AreBacklogs tenant_of _ q.queues t xs
                (AreBacklogs-later tenant_of q.vtime _ q.queues (λ u. timed_later q.vtime t u _) v)
                (timed_now q.vtime t _) (λ a k. b.filed a (omega (arith, count-cons a x xs, k)));
          counted = λ a. omega (
            arith,
            count-keep_queue tenant_of q.vtime q.queues t (x ∷ xs) xs a v e,
            count-cons a x xs,
            count-cons a x [],
            count-nil a,
          );
        },
      )

  pop_from-Hands :
      (o : Option (List ℕ)) (t : Tenant) (q : WaitQueue)
      → get q.queues t ≡ o
      → is_some o ≡ true
      → Backlogged true q
      → (x : ℕ) × (first o ≡ ok (some x))
        × ((pop_from t o q).0 ≡ ok x)
        × Exchanges true q (x ∷ []) [] (pop_from t o q).1
  unfolding first pop_from
  pop_from-Hands none t q e h v = cc
  pop_from-Hands (some []) t q e h v =
      absurd (omega (arith, (get-IsBacklog tenant_of q.vtime q.queues t [] v e).waits))
  pop_from-Hands (some (x ∷ xs)) t q e h v =
      let (f, c) = charged-Exchanges (get q.vtime t) t x xs q refl e v in (x, refl, f, c)

  next-Hands :
      (o : Option Tenant) (q : WaitQueue)
      → next_tenant q ≡ o
      → Backlogged true q
      → Hands true q (peek_next o q) (pop_next o q)
  unfolding peek_next pop_next contents_by entries
  next-Hands none q e v = nobody (ap entries (next_in-none q.vtime q.queues e)) refl refl
  next-Hands (some t) q e v =
      let (x, f, g, c) =
        pop_from-Hands (get q.queues t) t q refl (next_in-is_some q.vtime q.queues t e) v in
      hands x f g c

  fifo-Hands :
      (l : List ℕ) (q : WaitQueue) → q.fifo ≡ l → Hands false q (ok (front l)) (pop_fifo l q)
  unfolding contents_by pop_fifo
  fifo-Hands [] q e = nobody e refl refl
  fifo-Hands (x ∷ xs) q e = hands x refl refl (record {
    same_policy = refl;
    backlogged = tt;
    counted = λ a. omega (arith, ap (count a) e, count-cons a x xs, count-cons a x [], count-nil a);
  })

  pop_by-Hands : (b : Bool) (q : WaitQueue) → Backlogged b q → Hands b q (peek_by b q) (pop_by b q)
  unfolding peek_by pop_by
  pop_by-Hands true q v = next-Hands (next_tenant q) q refl v
  pop_by-Hands false q v = fifo-Hands q.fifo q refl

  -- The same for any policy.
  pub data IsHandout (q : WaitQueue) : Type 0 where
    empty : contents q ≡ [] → peek q ≡ ok none → pop q ≡ (err index_error, q) → IsHandout q
    handed :
        (x : ℕ)
        → peek q ≡ ok (some x)
        → (pop q).0 ≡ ok x
        → IsExchange q (x ∷ []) [] (pop q).1
        → IsHandout q

  -- Under either policy, for a queue in order: if nobody waits, `peek` says so and `pop` raises
  -- IndexError; otherwise `pop` returns the request that `peek` shows, takes exactly it out, and
  -- keeps the queue in order. Nothing else is raised.
  pub pop-IsHandout : (q : WaitQueue) → IsQueue q → IsHandout q
  unfolding peek pop contents
  pop-IsHandout q v = of_policy (pop_by-Hands q.tenant_fair q v.backlogged)
    where
      of_policy :
          Hands q.tenant_fair q (peek_by q.tenant_fair q) (pop_by q.tenant_fair q) → IsHandout q
      of_policy (nobody e f g) = empty e f g
      of_policy (hands x e f c) = handed x e f (exchanged q _ (x ∷ []) [] c)

  pub pop-IsQueue : (q : WaitQueue) → IsQueue q → IsQueue (pop q).1
  pop-IsQueue q v = of_handout (pop-IsHandout q v)
    where
      of_handout : IsHandout q → IsQueue (pop q).1
      of_handout (empty e f g) = rw g v
      of_handout (handed x e f c) = c.queue

  -- `len` is the number of requests that iteration gives.
  pub length-contents : (q : WaitQueue) → length (contents q) ≡ size q
  unfolding contents size contents_by size_by
  length-contents q = of_policy q.tenant_fair
    where
      of_policy : (b : Bool) → length (contents_by b q) ≡ size_by b q
      of_policy true = length-entries q.queues
      of_policy false = refl
