-- ===== src/Canary/Window/Expiry.antt =====
-- The window of a lane: what expiry keeps, and when its summary raises.
use turboserve.Prelude.{
  ℕ, ◌+◌, ◌-◌, ◌*◌, ◌≤◌, ◌≡◌, refl, Option, none, some, List, [], ◌∷◌, ◌++◌, arith, length,
  if◌then◌else◌, ok, Bool-cases, inl, inr,
}
use turboserve.Canary.{Sample, LaneSummary, lane_summary}
use turboserve.Canary.Percentile.{percentile, interpolated, sorted}
use turboserve.Canary.Window.{
  LaneWindow, is_expired, drop_expired, prune, num_errors, latencies, summary_of, summary,
}

num_errors-le : (ss : List Sample) → num_errors ss ≤ length ss
unfolding num_errors
num_errors-le [] = omega arith
num_errors-le (s ∷ ss) = ground (arith, num_errors-le ss)

percentile-ok : (values : List ℕ) (q : ℕ) → q ≤ 100 → (p : Option ℕ) × (percentile values q ≡ ok p)
unfolding percentile
percentile-ok [] q h = (none, ground arith)
percentile-ok (x ∷ xs) q h =
    (some (interpolated (sorted (x ∷ xs)) (q * (length (x ∷ xs) - 1))), ground arith)

summary_of-ok :
    (w : LaneWindow) (a b : Option ℕ) → (s : LaneSummary) × (summary_of w (ok a) (ok b) ≡ ok s)
unfolding summary_of lane_summary
summary_of-ok w a b = (
  record {
    lane = w.lane;
    requests = length w.samples;
    errors = num_errors w.samples;
    p95_ttft_ms = a;
    p95_e2e_ms = b;
    window_s = some w.window_s;
  },
  ground (arith, num_errors-le w.samples),
)

-- `summary` raises nothing: it counts no more errors than requests.
pub summary-ok : (now : ℕ) (w : LaneWindow) → (s : LaneSummary) × ((summary now w).0 ≡ ok s)
unfolding summary
summary-ok now w =
    let ss : List Sample = (prune now w).samples in
    let (a, e) = percentile-ok (latencies Sample.ttft_ms ss) 95 (omega arith) in
    let (b, f) = percentile-ok (latencies Sample.e2e_ms ss) 95 (omega arith) in
    rw (e, f) (summary_of-ok (prune now w) a b)

-- The samples that are not older than the window, seen from a time.
unfoldable pub recent : ℕ → ℕ → List Sample → List Sample
recent window_s latest [] = []
recent window_s latest (s ∷ ss) =
    if is_expired window_s latest s.t
    then recent window_s latest ss
    else s ∷ recent window_s latest ss

-- In time order, from one time to another.
abbrev pub IsOrdered : ℕ → ℕ → List Sample → Type 0
IsOrdered lo hi [] = lo ≤ hi
IsOrdered lo hi (s ∷ ss) = (lo ≤ s.t) × IsOrdered s.t hi ss

IsOrdered-lower :
    (lo lo' hi : ℕ) (ss : List Sample) → lo' ≤ lo → IsOrdered lo hi ss → IsOrdered lo' hi ss
IsOrdered-lower lo lo' hi [] h o = omega arith
IsOrdered-lower lo lo' hi (s ∷ ss) h o = (omega arith, o.1)

pub IsOrdered-append :
    (lo hi : ℕ) (ss : List Sample) (s : Sample)
    → IsOrdered lo hi ss
    → hi ≤ s.t
    → IsOrdered lo s.t (ss ++ s ∷ [])
IsOrdered-append lo hi [] s o h = (omega arith, omega arith)
IsOrdered-append lo hi (x ∷ ss) s o h = (o.0, IsOrdered-append x.t hi ss s o.1 h)

IsOrdered-later :
    (lo hi hi' : ℕ) (ss : List Sample) → hi ≤ hi' → IsOrdered lo hi ss → IsOrdered lo hi' ss
IsOrdered-later lo hi hi' [] h o = omega arith
IsOrdered-later lo hi hi' (s ∷ ss) h o = (o.0, IsOrdered-later s.t hi hi' ss h o.1)

pub recent-IsOrdered :
    (window_s latest lo hi : ℕ) (ss : List Sample)
    → IsOrdered lo hi ss
    → IsOrdered lo hi (recent window_s latest ss)
unfolding recent
recent-IsOrdered window_s latest lo hi [] o = o
recent-IsOrdered window_s latest lo hi (s ∷ ss) o =
    elim (Bool-cases (is_expired window_s latest s.t)) [
      | inl e ↦ rw e (
          IsOrdered-lower s.t lo hi (recent window_s latest ss) o.0
            (recent-IsOrdered window_s latest s.t hi ss o.1))
      | inr e ↦ rw e (o.0, recent-IsOrdered window_s latest s.t hi ss o.1)
    ]

-- From a time inside the window on, nothing is expired.
recent-all :
    (window_s latest lo hi : ℕ) (ss : List Sample)
    → latest ≤ lo + window_s
    → IsOrdered lo hi ss
    → recent window_s latest ss ≡ ss
unfolding recent
recent-all window_s latest lo hi [] h o = refl
recent-all window_s latest lo hi (s ∷ ss) h o =
    ground (arith, o.0, recent-all window_s latest s.t hi ss (omega (arith, o.0)) o.1)

pub drop_expired-recent :
    (window_s latest lo hi : ℕ) (ss : List Sample)
    → IsOrdered lo hi ss
    → drop_expired window_s latest ss ≡ recent window_s latest ss
unfolding drop_expired recent
drop_expired-recent window_s latest lo hi [] o = refl
drop_expired-recent window_s latest lo hi (s ∷ ss) o =
    elim (Bool-cases (is_expired window_s latest s.t)) [
      | inl e ↦ rw e (drop_expired-recent window_s latest s.t hi ss o.1)
      | inr e ↦ rw (e, recent-all window_s latest s.t hi ss (ground arith) o.1) refl
    ]

-- What is expired stays so.
pub recent_twice :
    (window_s earlier latest : ℕ) (ss : List Sample)
    → earlier ≤ latest
    → recent window_s latest (recent window_s earlier ss) ≡ recent window_s latest ss
unfolding recent
recent_twice window_s earlier latest [] h = refl
recent_twice window_s earlier latest (s ∷ ss) h =
    ground (arith, recent_twice window_s earlier latest ss h)

pub recent-append :
    (window_s latest : ℕ) (ss : List Sample) (s : Sample)
    → latest ≤ s.t + window_s
    → recent window_s latest (ss ++ s ∷ []) ≡ recent window_s latest ss ++ s ∷ []
unfolding recent
recent-append window_s latest [] s h = ground arith
recent-append window_s latest (x ∷ ss) s h = ground (arith, recent-append window_s latest ss s h)

pub length-recent :
    (window_s latest : ℕ) (ss : List Sample) → length (recent window_s latest ss) ≤ length ss
unfolding recent
length-recent window_s latest [] = omega arith
length-recent window_s latest (s ∷ ss) = ground (arith, length-recent window_s latest ss)
