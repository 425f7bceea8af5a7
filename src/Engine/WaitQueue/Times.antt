-- ===== src/Engine/WaitQueue/Times.antt =====
-- The choice of the next tenant by _WaitQueue (turboserve/engine/core/scheduler.py), and its virtual times.
use turboserve.Prelude.{
  ℕ, ◌+◌, ◌*◌, ◌≤◌, ◌≡◌, ◌≢◌, inl, inr, subst, true, some, List, [], ◌∷◌, arith, if◌then◌else◌,
  Bool-cases,
}
use turboserve.Prelude.Dict.{Dict, get, put, get-put, get-remove}
use turboserve.Prelude.Keys.{bytes_eq, bytes_beq, bytes_beq_iff}
use turboserve.Engine.PrefixCache.{is_some}
use turboserve.Engine.WaitQueue.{Tenant, is_before, least, next_in, keep_queue, time_of}

-- The tenant that is next has the least virtual time.
least-le :
    (vtime : Dict Tenant ℕ) (t : Tenant) (d : Dict Tenant (List ℕ))
    → time_of vtime (least vtime t d) ≤ time_of vtime t
unfolding least is_before
least-le vtime t [] = omega arith
least-le vtime t ((u, l) ∷ d) = elim (Bool-cases (is_before vtime u t)) [
  | inl e ↦ rw e (ground (arith, least-le vtime u d, e))
  | inr e ↦ rw e (least-le vtime t d)
]

picked-le :
    (vtime : Dict Tenant ℕ) (t u : Tenant)
    → time_of vtime (if is_before vtime u t then u else t) ≤ time_of vtime u
unfolding is_before
picked-le vtime t u = ground arith

least-le-key :
    (vtime : Dict Tenant ℕ) (t : Tenant) (d : Dict Tenant (List ℕ)) (k : Tenant)
    → is_some (get d k) ≡ true
    → time_of vtime (least vtime t d) ≤ time_of vtime k
unfolding least get
least-le-key vtime t [] k h = cc
least-le-key vtime t ((u, l) ∷ d) k h =
    let w = if is_before vtime u t then u else t in
    elim (Bool-cases (bytes_beq u k)) [
      | inl e ↦
          subst (λ v. time_of vtime (least vtime w d) ≤ time_of vtime v) ((bytes_beq_iff u k).0 e)
            (omega (arith, least-le vtime w d, picked-le vtime t u))
      | inr e ↦ least-le-key vtime w d k (ground arith)
    ]

pub next_in-le :
    (vtime : Dict Tenant ℕ) (d : Dict Tenant (List ℕ)) (t k : Tenant)
    → next_in vtime d ≡ some t
    → is_some (get d k) ≡ true
    → time_of vtime t ≤ time_of vtime k
unfolding next_in get least is_before
next_in-le vtime [] t k e h = cc
next_in-le vtime ((u, l) ∷ d) t k e h =
    subst (λ v. time_of vtime v ≤ time_of vtime k) (cc e)
      (elim (Bool-cases (bytes_beq u k)) [
        | inl f ↦
            subst (λ v. time_of vtime (least vtime u d) ≤ time_of vtime v) ((bytes_beq_iff u k).0 f)
              (least-le vtime u d)
        | inr f ↦ least-le-key vtime u d k (ground arith)
      ])

pub time_of-put :
    (vtime : Dict Tenant ℕ) (t u : Tenant) (v : ℕ)
    → time_of (put vtime t v) u ≡ (if bytes_beq t u then v else time_of vtime u)
time_of-put vtime t u v = ground (arith, get-put vtime t u v)

pub keep_queue-other :
    (w t : Tenant) (m : List ℕ) (d : Dict Tenant (List ℕ))
    → w ≢ t
    → is_some (get d t) ≡ true
    → is_some (get (keep_queue w m d) t) ≡ true
keep_queue-other w t [] d n h = ground (arith, get-remove d w t, bytes_beq_iff w t, n)
keep_queue-other w t (x ∷ m) d n h = ground (arith, get-put d w t (x ∷ m), bytes_beq_iff w t, n)

pub grow : (a b d k n c : ℕ) → a + k * c ≤ b → b + n * c ≤ d → a + (n + k) * c ≤ d
grow a b d k n c h g = grind arith

pub once_more : (a b v k c : ℕ) → a + k * c ≤ b → b ≤ v → a + (1 + k) * c ≤ v + c
once_more a b v k c h g = grind arith

-- How often a tenant stands in a list of tenants.
unfoldable pub times : Tenant → List Tenant → ℕ
times t [] = 0
times t (u ∷ l) = (if bytes_beq u t then 1 else 0) + times t l
