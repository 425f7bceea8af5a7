-- ===== src/Engine/WaitQueue/Relabelling.antt =====
-- _WaitQueue (turboserve/engine/core/scheduler.py) under another function from requests to tenants.
use turboserve.Prelude.{
  ℕ, ◌<◌, ◌≡◌, ◌∙◌, Bool, true, false, List, [], ◌∷◌, arith, count, count-append,
}
use turboserve.Prelude.Dict.{Dict}
use turboserve.Engine.WaitQueue.{WaitQueue, Tenant, entries, contents, contents_by}
use turboserve.Engine.WaitQueue.Backlogs.{AreBacklogs}
use turboserve.Engine.WaitQueue.Contents.{IsQueue, Backlogged}

module _ (f g : ℕ → Tenant) where
  AreBacklogs-relabelled :
      (vtime : Dict Tenant ℕ) (d : Dict Tenant (List ℕ))
      → ((a : ℕ) → 0 < count a (entries d) → g a ≡ f a)
      → AreBacklogs f vtime d
      → AreBacklogs g vtime d
  unfolding entries
  AreBacklogs-relabelled vtime [] h v = tt
  AreBacklogs-relabelled vtime ((t, l) ∷ d) h v = (
    record {
      waits = v.0.waits;
      timed = v.0.timed;
      filed = λ a k. h a (omega (arith, count-append a l (entries d), k)) ∙ v.0.filed a k;
    },
    v.1,
    AreBacklogs-relabelled vtime d (λ a k. h a (omega (arith, count-append a l (entries d), k)))
        v.2,
  )

  Backlogged-relabelled :
      (b : Bool) (q : WaitQueue)
      → ((a : ℕ) → 0 < count a (contents_by b q) → g a ≡ f a)
      → Backlogged f b q
      → Backlogged g b q
  unfolding contents_by
  Backlogged-relabelled true q h v = AreBacklogs-relabelled q.vtime q.queues h v
  Backlogged-relabelled false q h v = tt

  -- Only the tenants of the queued requests matter.
  pub IsQueue-relabelled :
      (q : WaitQueue) → ((a : ℕ) → 0 < count a (contents q) → g a ≡ f a) → IsQueue f q → IsQueue g q
  unfolding contents
  IsQueue-relabelled q h v = record {
    backlogged = Backlogged-relabelled q.tenant_fair q h v.backlogged;
  }
