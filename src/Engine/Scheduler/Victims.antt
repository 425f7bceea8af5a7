-- ===== src/Engine/Scheduler/Victims.antt =====
-- Which sequence Scheduler._pick_victim (turboserve/engine/core/scheduler.py) chooses. Its key breaks
-- ties by seq_id, which add_request counts up on arrival, and not by when a sequence was admitted.
use turboserve.Prelude.Integers.{ltb_int, ltb_int_trans, ltb_int_asym, ltb_int_irrefl}
use turboserve.Prelude.{
  ℕ, ◌≤◌, ◌<◌, ◌≡◌, sym, subst, true, false, Option, none, some, List, [], ◌∷◌, inl, inr, arith,
  count, count-nil, count-cons, Bool-cases, ==_iff, ◌==◌,
}
use turboserve.Engine.Sequence.{Sequence}
use turboserve.Engine.Scheduler.{Scheduler}
use turboserve.Engine.Scheduler.Step.{
  goes_before, least_of, candidates, is_candidate, first_victim, pick_victim,
}
use turboserve.Engine.Scheduler.Preempting.{candidates-in, least_of-in}

-- The order on `(priority, -seq_id)` is total.
goes_before_trans :
    (a b c : Sequence) → goes_before a b ≡ false → goes_before b c ≡ false → goes_before a c ≡ false
unfolding goes_before
goes_before_trans a b c h k = ground (
  arith,
  ltb_int_trans a.priority b.priority c.priority,
  ltb_int_trans c.priority a.priority b.priority,
  ltb_int_trans b.priority c.priority a.priority,
)

goes_before_asym : (a b : Sequence) → goes_before a b ≡ true → goes_before b a ≡ false
unfolding goes_before
goes_before_asym a b h =
    ground (arith, ltb_int_asym a.priority b.priority, ltb_int_asym b.priority a.priority)

goes_before_irrefl : (a : Sequence) → goes_before a a ≡ false
unfolding goes_before
goes_before_irrefl a = ground (arith, ltb_int_irrefl a.priority)

-- None of the list is before the least one, nor is the best one so far.
least_of-least :
    (store : ℕ → Sequence) (best : ℕ) (l : List ℕ)
    → (goes_before (store best) (store (least_of store best l)) ≡ false)
      × ((k : ℕ) → 0 < count k l → goes_before (store k) (store (least_of store best l)) ≡ false)
unfolding least_of
least_of-least store best [] =
    (goes_before_irrefl (store best), λ k h. absurd (omega (arith, count-nil k, h)))
least_of-least store best (x ∷ l) = elim (Bool-cases (goes_before (store x) (store best))) [
  | inl e ↦
      let (a, b) = least_of-least store x l in
      rw e (
        goes_before_trans (store best) (store x) (store (least_of store x l))
            (goes_before_asym (store x) (store best) e) a,
        λ k h. either k (least_of store x l) h a (b k),
      )
  | inr e ↦
      let (a, b) = least_of-least store best l in
      rw e (
        a,
        λ k h.
            either k (least_of store best l) h
              (goes_before_trans (store x) (store best) (store (least_of store best l)) e a) (b k),
      )
]
  where
    either :
        (k r : ℕ)
        → 0 < count k (x ∷ l)
        → goes_before (store x) (store r) ≡ false
        → (0 < count k l → goes_before (store k) (store r) ≡ false)
        → goes_before (store k) (store r) ≡ false
    either k r h a b = elim (Bool-cases (x == k)) [
      | inl e ↦ subst (λ j. goes_before (store j) (store r) ≡ false) ((==_iff x k).0 e) a
      | inr e ↦ b (ground (arith, count-cons k x l, e, h))
    ]

count-candidates :
    (c : Scheduler) (S : List ℕ) (id k : ℕ) (l : List ℕ)
    → 0 < count k l
    → is_candidate c S id k ≡ true
    → 0 < count k (candidates c S id l)
unfolding candidates
count-candidates c S id k [] h e = absurd (omega (arith, count-nil k, h))
count-candidates c S id k (x ∷ l) h e = elim (Bool-cases (x == k)) [
  | inl f ↦
      let g : is_candidate c S id x ≡ true =
        subst (λ j. is_candidate c S id j ≡ true) (sym ((==_iff x k).0 f)) e in
      rw g (ground (arith, count-cons k x (candidates c S id l), f))
  | inr f ↦
      let rest = count-candidates c S id k l (ground (arith, count-cons k x l, f, h)) e in
      elim (Bool-cases (is_candidate c S id x)) [
        | inl g ↦ rw g (omega (arith, count-cons k x (candidates c S id l), rest))
        | inr g ↦ rw g rest
      ]
]

-- `b` has no higher a priority than `a`, and if it has the same, then no lower an id.
pub record YieldsBefore (b a : Sequence) : Type 0 where
  pub lowest : ltb_int a.priority b.priority ≡ false
  pub newest : ltb_int b.priority a.priority ≡ false → a.seq_id ≤ b.seq_id

goes_before-YieldsBefore : (a b : Sequence) → goes_before a b ≡ false → YieldsBefore b a
unfolding goes_before
goes_before-YieldsBefore a b h = record {
  lowest = ground (arith, h);
  newest = λ k. ground (arith, h, k);
}

-- What `_pick_victim` may return: nobody, if no running sequence is a candidate; or a candidate that
-- runs and yields before every other candidate.
pub data IsChoice (c : Scheduler) (S : List ℕ) (id : ℕ) : Option ℕ → Type 0 where
  nobody : ((k : ℕ) → 0 < count k c.running → is_candidate c S id k ≡ false) → IsChoice c S id none
  victim :
      (v : ℕ)
      → 0 < count v c.running
      → is_candidate c S id v ≡ true
      → ((k : ℕ)
          → 0 < count k c.running
          → is_candidate c S id k ≡ true
          → YieldsBefore (c.store v) (c.store k))
      → IsChoice c S id (some v)

-- `_pick_victim` returns None exactly if every running sequence is the requester, is in the batch or
-- does not run any more; otherwise it returns one that is none of these, and among those one of the
-- lowest priority, with the greatest id among equals.
pub pick_victim-IsChoice :
    (c : Scheduler) (S : List ℕ) (id : ℕ) → IsChoice c S id (pick_victim c S id)
unfolding pick_victim first_victim
pick_victim-IsChoice c S id =
    of_list (candidates c S id c.running) (λ k. candidates-in c S id k c.running)
      (λ k. count-candidates c S id k c.running)
  where
    of_list :
        (l : List ℕ)
        → ((k : ℕ) → 0 < count k l → (0 < count k c.running) × (is_candidate c S id k ≡ true))
        → ((k : ℕ) → 0 < count k c.running → is_candidate c S id k ≡ true → 0 < count k l)
        → IsChoice c S id (first_victim c.store l)
    of_list [] h g = nobody (λ k a. elim (Bool-cases (is_candidate c S id k)) [
      | inl e ↦ absurd (omega (arith, count-nil k, g k a e))
      | inr e ↦ e
    ])
    of_list (x ∷ l) h g =
        let v = least_of c.store x l in
        let (a, b) = h v (least_of-in c.store x l) in
        let (p, q) = least_of-least c.store x l in
        victim v a b (λ k r e.
          goes_before-YieldsBefore (c.store k) (c.store v) (elim (Bool-cases (x == k)) [
            | inl f ↦ subst (λ j. goes_before (c.store j) (c.store v) ≡ false) ((==_iff x k).0 f) p
            | inr f ↦ q k (ground (arith, count-cons k x l, f, g k r e))
          ]))
