-- ===== src/Engine/WaitQueue/Backlogs.antt =====
-- The tenants' queues of _WaitQueue, a dict of deques, under assignment and deletion.
use turboserve.Prelude.{
  ℕ, ◌+◌, ◌<◌, ◌≡◌, ap, Bool-cases, inl, inr, refl, sym, subst, true, none, some, List, [], ◌∷◌,
  arith, length, length-append, count, count-append, count-nil,
}
use turboserve.Prelude.Dict.{Dict, get, put, remove, get-put, get-remove}
use turboserve.Prelude.Keys.{bytes_eq, bytes_beq, bytes_beq_iff}
use turboserve.Engine.PrefixCache.{is_some}
use turboserve.Engine.WaitQueue.{
  Tenant, least, next_in, is_before, get_default, keep_queue, entries, total,
}

module _ (tenant_of : ℕ → Tenant) where
  -- One tenant's queue: not empty, with a virtual time, and of that tenant's requests.
  pub record IsBacklog (vtime : Dict Tenant ℕ) (t : Tenant) (l : List ℕ) : Type 0 where
    pub waits : 0 < length l
    pub timed : is_some (get vtime t) ≡ true
    pub filed : (a : ℕ) → 0 < count a l → tenant_of a ≡ t

  abbrev pub AreBacklogs : Dict Tenant ℕ → Dict Tenant (List ℕ) → Type 0
  AreBacklogs vtime [] = Unit
  AreBacklogs vtime ((t, l) ∷ d) = IsBacklog vtime t l × (get d t ≡ none) × AreBacklogs vtime d

  pub get-IsBacklog :
      (vtime : Dict Tenant ℕ) (d : Dict Tenant (List ℕ)) (t : Tenant) (l : List ℕ)
      → AreBacklogs vtime d
      → get d t ≡ some l
      → IsBacklog vtime t l
  unfolding get
  get-IsBacklog vtime [] t l v e = cc
  get-IsBacklog vtime ((u, m) ∷ d) t l v e =
      ground (arith, bytes_beq_iff u t, get-IsBacklog vtime d t l v.2)

  pub put-AreBacklogs :
      (vtime : Dict Tenant ℕ) (d : Dict Tenant (List ℕ)) (t : Tenant) (l : List ℕ)
      → AreBacklogs vtime d
      → IsBacklog vtime t l
      → AreBacklogs vtime (put d t l)
  unfolding get put
  put-AreBacklogs vtime [] t l v b = (b, refl, tt)
  put-AreBacklogs vtime ((u, m) ∷ d) t l v b = elim (Bool-cases (bytes_beq u t)) [
    | inl e ↦ rw e (b, subst (λ k. get d k ≡ none) ((bytes_beq_iff u t).0 e) v.1, v.2)
    | inr e ↦ rw e (
      v.0,
      ground (arith, get-put d t u l, bytes_beq_iff t u, bytes_beq_iff u t, v.1),
      put-AreBacklogs vtime d t l v.2 b,
    )
  ]

  pub remove-AreBacklogs :
      (vtime : Dict Tenant ℕ) (d : Dict Tenant (List ℕ)) (t : Tenant)
      → AreBacklogs vtime d
      → AreBacklogs vtime (remove d t)
  unfolding remove
  remove-AreBacklogs vtime [] t v = tt
  remove-AreBacklogs vtime ((u, m) ∷ d) t v = elim (Bool-cases (bytes_beq u t)) [
    | inl e ↦ rw e (remove-AreBacklogs vtime d t v.2)
    | inr e ↦ rw e (v.0, ground (arith, get-remove d t u, v.1), remove-AreBacklogs vtime d t v.2)
  ]

  -- Virtual times may be added and changed.
  pub AreBacklogs-later :
      (old new : Dict Tenant ℕ) (d : Dict Tenant (List ℕ))
      → ((t : Tenant) → is_some (get old t) ≡ true → is_some (get new t) ≡ true)
      → AreBacklogs old d
      → AreBacklogs new d
  AreBacklogs-later old new [] h v = tt
  AreBacklogs-later old new ((t, l) ∷ d) h v = (
    record { waits = v.0.waits; timed = h t v.0.timed; filed = v.0.filed },
    v.1,
    AreBacklogs-later old new d h v.2,
  )

  pub count-entries-remove :
      (vtime : Dict Tenant ℕ) (d : Dict Tenant (List ℕ)) (t : Tenant) (l : List ℕ) (a : ℕ)
      → AreBacklogs vtime d
      → get d t ≡ some l
      → count a (entries (remove d t)) + count a l ≡ count a (entries d)
  unfolding get remove entries
  count-entries-remove vtime [] t l a v e = cc
  count-entries-remove vtime ((u, m) ∷ d) t l a v e = elim (Bool-cases (bytes_beq u t)) [
    | inl f ↦ ground (
      arith,
      count-append a m (entries d),
      ap (λ k. count a (entries k))
          (remove-absent d t (subst (λ k. get d k ≡ none) ((bytes_beq_iff u t).0 f) v.1)),
    )
    | inr f ↦ ground (
      arith,
      count-append a m (entries d),
      count-append a m (entries (remove d t)),
      count-entries-remove vtime d t l a v.2,
    )
  ]
    where
      remove-absent : (c : Dict Tenant (List ℕ)) (k : Tenant) → get c k ≡ none → remove c k ≡ c
      remove-absent [] k g = refl
      remove-absent ((i, x) ∷ c) k g = ground (arith, remove-absent c k)

-- Assigning a queue to a tenant with the queue `l`, and to one without.
pub count-entries-put :
    (d : Dict Tenant (List ℕ)) (t : Tenant) (l m : List ℕ) (a : ℕ)
    → get d t ≡ some l
    → count a (entries (put d t m)) + count a l ≡ count a (entries d) + count a m
unfolding get put entries
count-entries-put [] t l m a e = cc
count-entries-put ((u, k) ∷ d) t l m a e = ground (
  arith,
  count-append a k (entries d),
  count-append a m (entries d),
  count-append a k (entries (put d t m)),
  count-entries-put d t l m a,
)

pub count-entries-put_new :
    (d : Dict Tenant (List ℕ)) (t : Tenant) (m : List ℕ) (a : ℕ)
    → get d t ≡ none
    → count a (entries (put d t m)) ≡ count a (entries d) + count a m
unfolding get put entries
count-entries-put_new [] t m a e = ground (arith, count-append a m [], count-nil a)
count-entries-put_new ((u, k) ∷ d) t m a e = ground (
  arith,
  count-append a k (entries d),
  count-append a k (entries (put d t m)),
  count-entries-put_new d t m a,
)

-- A request of a tenant without a queue is nowhere.
module _ (tenant_of : ℕ → Tenant) where
  pub count-keep_queue :
      (vtime : Dict Tenant ℕ) (d : Dict Tenant (List ℕ)) (t : Tenant) (l m : List ℕ) (a : ℕ)
      → AreBacklogs tenant_of vtime d
      → get d t ≡ some l
      → count a (entries (keep_queue t m d)) + count a l ≡ count a (entries d) + count a m
  count-keep_queue vtime d t l [] a v e =
      ground (arith, count-entries-remove tenant_of vtime d t l a v e, count-nil a)
  count-keep_queue vtime d t l (x ∷ m) a v e = count-entries-put d t l (x ∷ m) a e

  pub keep_queue-AreBacklogs :
      (vtime : Dict Tenant ℕ) (d : Dict Tenant (List ℕ)) (t : Tenant) (m : List ℕ)
      → AreBacklogs tenant_of vtime d
      → is_some (get vtime t) ≡ true
      → ((a : ℕ) → 0 < count a m → tenant_of a ≡ t)
      → AreBacklogs tenant_of vtime (keep_queue t m d)
  keep_queue-AreBacklogs vtime d t [] v e f = remove-AreBacklogs tenant_of vtime d t v
  keep_queue-AreBacklogs vtime d t (x ∷ m) v e f =
      put-AreBacklogs tenant_of vtime d t (x ∷ m) v
        (record { waits = omega arith; timed = e; filed = f })

  -- A request stands in its tenant's queue, or in none.
  pub count-entries :
      (vtime : Dict Tenant ℕ) (d : Dict Tenant (List ℕ)) (a : ℕ)
      → AreBacklogs tenant_of vtime d
      → count a (entries d) ≡ count a (get_default (get d (tenant_of a)) [])
  unfolding get entries
  count-entries vtime [] a v = refl
  count-entries vtime ((u, l) ∷ d) a v = elim (Bool-cases (bytes_beq u (tenant_of a))) [
    | inl e ↦
        let gone : get d (tenant_of a) ≡ none =
          subst (λ k. get d k ≡ none) ((bytes_beq_iff u (tenant_of a)).0 e) v.1 in
        rw e (
          ground (
            arith,
            count-append a l (entries d),
            count-entries vtime d a v.2,
            ap (λ o. count a (get_default o [])) gone,
            count-nil a,
          ))
    | inr e ↦ rw e (
        ground (
          arith,
          count-append a l (entries d),
          count-entries vtime d a v.2,
          elsewhere (λ h. cc (e, (bytes_beq_iff u (tenant_of a)).1 (sym (v.0.filed a h)))),
        ))
  ]
    where
      elsewhere : (0 < count a l → ⊥) → count a l ≡ 0
      elsewhere h = ground (arith, h)

-- The tenant that is next has a queue.
pub least-is_some :
    (vtime : Dict Tenant ℕ) (t : Tenant) (d c : Dict Tenant (List ℕ))
    → is_some (get c t) ≡ true
    → ((u : Tenant) → is_some (get d u) ≡ true → is_some (get c u) ≡ true)
    → is_some (get c (least vtime t d)) ≡ true
unfolding least get
least-is_some vtime t [] c h k = h
least-is_some vtime t ((u, l) ∷ d) c h k = elim (Bool-cases (is_before vtime u t)) [
  | inl e ↦ rw e (
      least-is_some vtime u d c (k u (ground (arith, bytes_beq_iff u u)))
        (λ w g. k w (ground arith)))
  | inr e ↦ rw e (least-is_some vtime t d c h (λ w g. k w (ground arith)))
]

pub next_in-is_some :
    (vtime : Dict Tenant ℕ) (d : Dict Tenant (List ℕ)) (t : Tenant)
    → next_in vtime d ≡ some t
    → is_some (get d t) ≡ true
unfolding next_in get
next_in-is_some vtime [] t e = cc
next_in-is_some vtime ((u, l) ∷ d) t e =
    subst (λ k. is_some (get ((u, l) ∷ d) k) ≡ true) (cc e)
      (least-is_some vtime u d ((u, l) ∷ d) (ground (arith, bytes_beq_iff u u))
        (λ w h. ground arith))

pub next_in-none :
    (vtime : Dict Tenant ℕ) (d : Dict Tenant (List ℕ)) → next_in vtime d ≡ none → d ≡ []
unfolding next_in
next_in-none vtime [] e = refl
next_in-none vtime ((u, l) ∷ d) e = cc

pub length-entries : (d : Dict Tenant (List ℕ)) → length (entries d) ≡ total d
unfolding entries total
length-entries [] = refl
length-entries ((u, l) ∷ d) = omega (arith, length-append l (entries d), length-entries d)
