-- ===== src/Canary/Window/InOrder.antt =====
-- A lane whose requests finish in the order of their times.
use turboserve.Prelude.{
  ℕ, ◌+◌, ◌-◌, ◌≤◌, ◌<◌, ◌≡◌, refl, sym, ap, subst, ◌∙◌, Bool, Option, List, [], ◌∷◌, ◌++◌, arith,
  length, length-append, drop, ap₂,
}
use mathlib.Core.List.{append-nil, append_assoc}
use turboserve.Canary.{Lane, Sample}
use turboserve.Canary.Window.{LaneWindow, later, drop_expired, prune, push, observe, empty_window}
use turboserve.Canary.Window.Expiry.{
  recent, IsOrdered, IsOrdered-append, recent-IsOrdered, drop_expired-recent, recent_twice,
  recent-append, length-recent,
}

-- `observe` of one request after another, at the times of the samples.
unfoldable pub observe_all : List Sample → LaneWindow → LaneWindow
unfolding observe
observe_all [] w = w
observe_all (s ∷ ss) w = observe_all ss (observe s.succeeded s.ttft_ms s.e2e_ms s.t w)

-- The window after the requests of a list, the last of them no later than a time.
record IsFollowing (w : LaneWindow) (seen : List Sample) (lo : ℕ) : Type 0 where
  samples : w.samples ≡ recent w.window_s lo seen
  latest : (now : ℕ) → lo ≤ now → later w.latest now ≡ now
  ordered : IsOrdered 0 lo seen

prune-samples :
    (w : LaneWindow) (seen : List Sample) (lo now : ℕ)
    → IsFollowing w seen lo
    → lo ≤ now
    → (prune now w).samples ≡ recent w.window_s now seen
unfolding prune
prune-samples w seen lo now f h =
    ap (λ l. drop_expired w.window_s l w.samples) (f.latest now h)
    ∙ ap (drop_expired w.window_s now) f.samples
    ∙ drop_expired-recent w.window_s now 0 lo (recent w.window_s lo seen)
        (recent-IsOrdered w.window_s lo 0 lo seen f.ordered)
    ∙ recent_twice w.window_s lo now seen h

push-room : (n : ℕ) (ss : List Sample) (s : Sample) → length ss < n → push n ss s ≡ ss ++ s ∷ []
unfolding push
push-room n ss s h =
    let none_over : length (ss ++ s ∷ []) - n ≡ 0 = omega (arith, length-append ss (s ∷ [])) in
    ap (λ k. drop k (ss ++ s ∷ [])) none_over

-- A request that is not late is appended.
observe-push :
    (w : LaneWindow) (s : Sample)
    → later w.latest s.t ≡ s.t
    → observe s.succeeded s.ttft_ms s.e2e_ms s.t w
      ≡ record (prune s.t w) { samples = push w.max_samples (prune s.t w).samples s }
unfolding observe prune
observe-push w s e = ground (arith, e)

observe-IsFollowing :
    (w : LaneWindow) (seen : List Sample) (lo : ℕ) (s : Sample)
    → IsFollowing w seen lo
    → lo ≤ s.t
    → length seen < w.max_samples
    → IsFollowing (observe s.succeeded s.ttft_ms s.e2e_ms s.t w) (seen ++ s ∷ []) s.t
unfolding prune
observe-IsFollowing w seen lo s f h k = rw (observe-push w s (f.latest s.t h)) (record {
  samples =
      push-room w.max_samples (prune s.t w).samples s (
        subst (λ ss. length ss < w.max_samples) (sym (prune-samples w seen lo s.t f h))
          (omega (arith, length-recent w.window_s s.t seen)))
      ∙ ap (λ ss. ss ++ s ∷ []) (prune-samples w seen lo s.t f h)
      ∙ sym (recent-append w.window_s s.t seen s (omega arith));
  latest = λ now l. ground (arith, f.latest s.t h);
  ordered = IsOrdered-append 0 lo seen s f.ordered h;
})

-- What observing leaves alone.
observe-sizes :
    (w : LaneWindow) (succeeded : Bool) (a b : Option ℕ) (now : ℕ)
    → ((observe succeeded a b now w).window_s ≡ w.window_s)
      × ((observe succeeded a b now w).max_samples ≡ w.max_samples)
unfolding observe prune
observe-sizes w succeeded a b now = (ground arith, ground arith)

observe_all-samples :
    (ss : List Sample) (w : LaneWindow) (seen : List Sample) (lo now : ℕ)
    → IsFollowing w seen lo
    → IsOrdered lo now ss
    → length seen + length ss ≤ w.max_samples
    → (prune now (observe_all ss w)).samples ≡ recent w.window_s now (seen ++ ss)
unfolding observe_all
observe_all-samples [] w seen lo now f o h =
    prune-samples w seen lo now f o ∙ ap (recent w.window_s now) (sym (append-nil seen))
observe_all-samples (s ∷ ss) w seen lo now f o h =
    let (p, q) = observe-sizes w s.succeeded s.ttft_ms s.e2e_ms s.t in
    observe_all-samples ss (observe s.succeeded s.ttft_ms s.e2e_ms s.t w) (seen ++ s ∷ []) s.t now
      (observe-IsFollowing w seen lo s f o.0 (omega arith)) o.1
      (omega (arith, q, length-append seen (s ∷ [])))
    ∙ ap₂ (λ n l. recent n now l) p (append_assoc seen (s ∷ []) ss)

-- In a fresh window with room for them, requests that are observed in the order of their times leave
-- at a later time exactly those samples that are not older than the window, in their order.
pub observe_all-recent :
    (lane : Lane) (window_s max_samples now : ℕ) (ss : List Sample)
    → IsOrdered 0 now ss
    → length ss ≤ max_samples
    → (prune now (observe_all ss (empty_window lane window_s max_samples))).samples
      ≡ recent window_s now ss
unfolding recent
observe_all-recent lane window_s max_samples now ss o h =
    observe_all-samples ss (empty_window lane window_s max_samples) [] 0 now
      (record { samples = refl; latest = λ n l. refl; ordered = omega arith }) o (omega arith)
