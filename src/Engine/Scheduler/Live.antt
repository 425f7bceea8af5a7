-- ===== src/Engine/Scheduler/Live.antt =====
-- The index of requests of a Scheduler (turboserve/engine/core/scheduler.py), beside its queues.
use turboserve.Prelude.{
  ℕ, ◌≤◌, ◌<◌, ◌≡◌, ◌≢◌, refl, sym, ap, subst, ◌∙◌, Bool, true, false, Option, none, some, List,
  inl, inr, arith, Bool-cases, ◌==◌, ==_iff, if◌then◌else◌,
}
use turboserve.Prelude.Dict.{Dict, get, put, remove, get-put, get-remove}
use turboserve.Prelude.Keys.{bytes_eq, bytes_beq, bytes_beq_iff}
use turboserve.Engine.Sequence.{Sequence, FinishReason}
use turboserve.Engine.Scheduler.{Scheduler}
use turboserve.Engine.Scheduler.Invariant.{IsScheduler}
use turboserve.Engine.Scheduler.StepState.{places, IsCarried}
use turboserve.Engine.Scheduler.Detaching.{IsGone}
use turboserve.Engine.Scheduler.Arrivals.{IsArrival}

-- The queues and blocks are in order, the queued sequences are exactly those that the index has
-- under their requests, and the ids to come are unused.
pub record IsLive (c : Scheduler) : Type 0 where
  pub orderly : IsScheduler c
  pub listed :
      (k : ℕ) → 0 < places c k → get c.by_request (Sequence.request_id (c.store k)) ≡ some k
  pub queued :
      (r : List ℕ) (k : ℕ)
      → get c.by_request r ≡ some k
      → (0 < places c k) × (Sequence.request_id (c.store k) ≡ r)
  pub fresh : (k : ℕ) → c.seq_counter ≤ k → places c k ≡ 0

pub carried-IsLive : {c d : Scheduler} → IsLive c → IsScheduler d → IsCarried c d → IsLive d
carried-IsLive {c} {d} v o x = record {
  orderly = o;
  listed = λ k h.
      subst (λ i. get i (Sequence.request_id (d.store k)) ≡ some k) (sym x.same_index)
        (subst (λ r. get c.by_request r ≡ some k) (sym (x.requests k).request)
          (v.listed k (omega (arith, h, x.same_places k))));
  queued = λ r k e.
      let (h, g) = v.queued r k (subst (λ i. get i r ≡ some k) x.same_index e) in
      (omega (arith, h, x.same_places k), (x.requests k).request ∙ g);
  fresh = λ k l. omega (arith, x.same_places k, v.fresh k (omega (arith, l, x.same_counter)));
}

kept_entry :
    (index : Dict (List ℕ) ℕ) (q r : List ℕ) (k : ℕ)
    → get (remove index q) r ≡ some k
    → (get index r ≡ some k) × (q ≢ r)
kept_entry index q r k e = elim (Bool-cases (bytes_beq q r)) [
  | inl f ↦ absurd (
      let g = get-remove index q r in
      cc (e, subst (λ b. get (remove index q) r ≡ (if b then none else get index r)) f g))
  | inr f ↦ (
    sym (
          subst (λ b. get (remove index q) r ≡ (if b then none else get index r)) f
            (get-remove index q r))
        ∙ e,
    λ p. cc (f, (bytes_beq_iff q r).1 p),
  )
]

other_entry :
    (index : Dict (List ℕ) ℕ) (q r : List ℕ) → q ≢ r → get (remove index q) r ≡ get index r
other_entry index q r n = elim (Bool-cases (bytes_beq q r)) [
  | inl f ↦ absurd (n ((bytes_beq_iff q r).0 f))
  | inr f ↦
      subst (λ b. get (remove index q) r ≡ (if b then none else get index r)) f
        (get-remove index q r)
]

pub gone-IsLive :
    (id : ℕ) (reason : FinishReason) {c d : Scheduler}
    → IsLive c
    → 0 < places c id
    → IsGone id reason c d
    → IsLive d
gone-IsLive id reason {c} {d} v h x = record {
  orderly = x.valid;
  listed = λ k l.
      let other : id ≢ k = λ p. omega (arith, l, x.gone, ap (places d) p) in
      let (a, b) = x.others k other in
      let entry = v.listed k (omega (arith, l, a)) in
      let apart : Sequence.request_id (c.store id) ≢ Sequence.request_id (c.store k) =
        λ p. other (cc (v.listed id h, entry, ap (get c.by_request) p)) in
      subst (λ s. get d.by_request (Sequence.request_id s) ≡ some k) (sym b)
        (subst (λ i. get i (Sequence.request_id (c.store k)) ≡ some k) (sym x.index_is)
          (other_entry c.by_request (Sequence.request_id (c.store id))
              (Sequence.request_id (c.store k)) apart
            ∙ entry));
  queued = λ r k e.
      let (entry, n) =
        kept_entry c.by_request (Sequence.request_id (c.store id)) r k
          (subst (λ i. get i r ≡ some k) x.index_is e) in
      let (l, q) = v.queued r k entry in
      let other : id ≢ k = λ p. n (ap (λ j. Sequence.request_id (c.store j)) p ∙ q) in
      let (a, b) = x.others k other in (omega (arith, a, l), ap Sequence.request_id b ∙ q);
  fresh = λ k l. elim (Bool-cases (id == k)) [
    | inl e ↦ subst (λ j. places d j ≡ 0) ((==_iff id k).0 e) x.gone
    | inr e ↦
        let (a, b) = x.others k (λ p. cc (e, (==_iff id k).1 p)) in
        omega (arith, a, v.fresh k (omega (arith, l, x.same_counter)))
  ];
}

pub arrival-IsLive :
    (s : Sequence) {c d : Scheduler}
    → IsLive c
    → get c.by_request s.request_id ≡ none
    → s.seq_id < c.seq_counter
    → places c s.seq_id ≡ 0
    → IsArrival s c d
    → IsLive d
arrival-IsLive s {c} {d} v z l u x = record {
  orderly = x.valid;
  listed = λ k h. elim (Bool-cases (s.seq_id == k)) [
    | inl e ↦
        subst (λ j. get d.by_request (Sequence.request_id (d.store j)) ≡ some j)
          ((==_iff s.seq_id k).0 e)
          (subst (λ r. get d.by_request r ≡ some s.seq_id) (sym (ap Sequence.request_id x.stored))
            (found s.request_id (some s.seq_id)
              (ground (arith, bytes_beq_iff s.request_id s.request_id))))
    | inr e ↦
        let (a, b) = x.others k (λ p. cc (e, (==_iff s.seq_id k).1 p)) in
        let entry = v.listed k (omega (arith, h, a)) in
        subst (λ t. get d.by_request (Sequence.request_id t) ≡ some k) (sym b)
          (found (Sequence.request_id (c.store k)) (some k)
            (apart (Sequence.request_id (c.store k)) k entry))
  ];
  queued = λ r k e. elim (Bool-cases (bytes_beq s.request_id r)) [
    | inl f ↦
        let same : some s.seq_id ≡ some k = sym (at_entry r true f) ∙ e in
        let named : s.seq_id ≡ k = cc same in
        (
          subst (λ j. 0 < places d j) named (omega (arith, x.placed)),
          subst (λ j. Sequence.request_id (d.store j) ≡ r) named
              (ap Sequence.request_id x.stored ∙ (bytes_beq_iff s.request_id r).0 f),
        )
    | inr f ↦
        let entry : get c.by_request r ≡ some k = sym (at_entry r false f) ∙ e in
        let (h, q) = v.queued r k entry in
        let other : s.seq_id ≢ k = λ p. omega (arith, h, u, ap (places c) p) in
        let (a, b) = x.others k other in (omega (arith, a, h), ap Sequence.request_id b ∙ q)
  ];
  fresh = λ k h.
      let (a, b) = x.others k (λ p. omega (arith, p, l, h, x.same_counter)) in
      omega (arith, a, v.fresh k (omega (arith, h, x.same_counter)));
}
  where
    at_entry :
        (r : List ℕ) (b : Bool)
        → bytes_beq s.request_id r ≡ b
        → get d.by_request r ≡ (if b then some s.seq_id else get c.by_request r)
    at_entry r b f =
        subst (λ i. get i r ≡ (if b then some s.seq_id else get c.by_request r)) (sym x.index_is)
          (subst
            (λ y.
              get (put c.by_request s.request_id s.seq_id) r
              ≡ (if y then some s.seq_id else get c.by_request r))
            f (get-put c.by_request s.request_id r s.seq_id))

    found :
        (r : List ℕ) (o : Option ℕ)
        → (if bytes_beq s.request_id r then some s.seq_id else get c.by_request r) ≡ o
        → get d.by_request r ≡ o
    found r o e = at_entry r (bytes_beq s.request_id r) refl ∙ e

    apart :
        (r : List ℕ) (k : ℕ)
        → get c.by_request r ≡ some k
        → (if bytes_beq s.request_id r then some s.seq_id else get c.by_request r) ≡ some k
    apart r k e = elim (Bool-cases (bytes_beq s.request_id r)) [
      | inl f ↦ absurd (
          let g = subst (λ q. get c.by_request q ≡ none) ((bytes_beq_iff s.request_id r).0 f) z in
          cc (e, g))
      | inr f ↦ rw f e
    ]
