-- ===== src/Engine/Scheduler/Holdings.antt =====
-- The blocks of any number of sequences under one block manager
-- (turboserve/engine/core/block_manager.py).
use turboserve.Prelude.{
  ℕ, ◌+◌, ◌*◌, ◌≤◌, ◌<◌, ◌≡◌, ◌≢◌, refl, sym, ap, Option, none, some, List, [], ◌∷◌, ◌++◌, inl, inr,
  arith, get_elem?, count, count-nil, count-cons, count-append, count-get_elem?, ◌==◌,
  if◌then◌else◌, Bool-cases, ==_iff,
}
use turboserve.Prelude.Dict.{get}
use turboserve.Prelude.Keys.{nat_eq}
use turboserve.Engine.BlockAllocator.{refs_at}
use turboserve.Engine.Sequence.{Sequence}
use turboserve.Engine.BlockManager.{SeqBlocks, BlockManager}
use turboserve.Engine.BlockManager.Pool.{IsPool}
use turboserve.Engine.BlockManager.Ownership.{Frame, IsPrivate}
use turboserve.Engine.WaitQueue.{remove_first}
use turboserve.Engine.WaitQueue.Contents.{count-remove_first}
use turboserve.Engine.Scheduler.{write}

-- How many references the listed sequences hold on a block.
unfoldable pub references : (ℕ → Sequence) → List ℕ → ℕ → ℕ
references store [] b = 0
references store (id ∷ ids) b = count b (Sequence.block_table (store id)) + references store ids b

abbrev pub published_in : Option SeqBlocks → ℕ
published_in none = 0
published_in (some blocks) = blocks.num_published

-- How many blocks of a sequence have been published.
abbrev pub published : BlockManager → Sequence → ℕ
published m s = published_in (get m.state s.seq_id)

-- The blocks of one sequence: from the first one not yet published on they are its own.
pub record Holds (m : BlockManager) (id : ℕ) (s : Sequence) : Type 0 where
  pub named : s.seq_id ≡ id
  pub blocks : SeqBlocks
  pub known : get m.state s.seq_id ≡ some blocks
  pub complete : blocks.num_published * m.block_size ≤ s.num_computed_tokens
  pub own :
      (i b : ℕ) → published m s ≤ i → get_elem? s.block_table i ≡ some b → IsPrivate m.allocator b

-- The pool's counts are the references of the listed sequences.
pub record IsHolding (m : BlockManager) (store : ℕ → Sequence) (ids : List ℕ) : Type 0 where
  pub pool : IsPool m.allocator
  pub counted : (b : ℕ) → refs_at m.allocator b ≡ references store ids b
  pub each : (k : ℕ) → 0 < count k ids → Holds m k (store k)

-- The same of a part of the sequences.
pub record IsFramed (m : BlockManager) (store : ℕ → Sequence) (rest : List ℕ) : Type 0 where
  pub pool : IsPool m.allocator
  pub bound : (b : ℕ) → references store rest b ≤ refs_at m.allocator b
  pub each : (k : ℕ) → 0 < count k rest → Holds m k (store k)

-- A block that one of the listed sequences has for itself.
abbrev pub PrivateTo : BlockManager → (ℕ → Sequence) → List ℕ → ℕ → Type 0
PrivateTo m store rest b =
    (k : ℕ) × (0 < count k rest)
    × ((i : ℕ) × (published m (store k) ≤ i)
        × (get_elem? (Sequence.block_table (store k)) i ≡ some b))

-- The count of a block in the table of an object.
abbrev table_count : (ℕ → Sequence) → ℕ → ℕ → ℕ
table_count store b k = count b (Sequence.block_table (store k))

pub write-same : (id : ℕ) (s : Sequence) (store : ℕ → Sequence) → write id s store id ≡ s
write-same id s store = rw ((==_iff id id).1 refl) refl

pub write-other :
    (id k : ℕ) (s : Sequence) (store : ℕ → Sequence) → id ≢ k → write id s store k ≡ store k
write-other id k s store n = elim (Bool-cases (k == id)) [
  | inl e ↦ absurd (n (sym ((==_iff k id).0 e)))
  | inr e ↦ rw e refl
]

pub references-lt :
    (store : ℕ → Sequence) (ids : List ℕ) (k b : ℕ)
    → 0 < count k ids
    → 0 < count b (Sequence.block_table (store k))
    → 0 < references store ids b
unfolding references
references-lt store [] k b h g = absurd (omega (arith, count-nil k))
references-lt store (id ∷ ids) k b h g = elim (Bool-cases (id == k)) [
  | inl e ↦ omega (arith, ap (λ j. count b (Sequence.block_table (store j))) ((==_iff id k).0 e), g)
  | inr e ↦ omega (arith, references-lt store ids k b (ground (arith, count-cons k id ids)) g)
]

module _ {m : BlockManager} {store : ℕ → Sequence} {rest : List ℕ} where
  pub PrivateTo-IsPrivate :
      IsFramed m store rest → (b : ℕ) → PrivateTo m store rest b → IsPrivate m.allocator b
  PrivateTo-IsPrivate v b (k, h, (i, l, e)) = (v.each k h).own i b l e

  -- What a sequence sees of the others.
  abbrev pub frame_of : IsFramed m store rest → Frame
  frame_of v = record {
    refs = references store rest;
    Private = PrivateTo m store rest;
    once = λ b p. omega (
      arith,
      v.bound b,
      (PrivateTo-IsPrivate v b p).0,
      references-lt store rest p.0 b p.1
          (count-get_elem? (Sequence.block_table (store p.0)) p.2.0 b p.2.2),
    );
  }

-- `ids` is `id` and the rest.
pub record IsSplit (id : ℕ) (rest ids : List ℕ) : Type 0 where
  pub counts : (a : ℕ) → count a ids ≡ (if id == a then 1 else 0) + count a rest
  pub apart : count id rest ≡ 0
  pub shares :
      (store : ℕ → Sequence) (b : ℕ)
      → references store ids b ≡ count b (Sequence.block_table (store id)) + references store rest b

pub IsSplit-first :
    (id : ℕ) (ids : List ℕ) → count id ids ≡ 1 → IsSplit id (remove_first id ids) ids
unfolding references remove_first
IsSplit-first id ids h = record {
  counts = λ a. count-remove_first id a ids (omega arith);
  apart = ground (arith, count-remove_first id id ids (omega arith));
  shares = λ store b. parted store b ids (omega arith);
}
  where
    parted :
        (store : ℕ → Sequence) (b : ℕ) (l : List ℕ)
        → 0 < count id l
        → references store l b
          ≡ count b (Sequence.block_table (store id)) + references store (remove_first id l) b
    parted store b [] g = absurd (omega (arith, count-nil id))
    parted store b (k ∷ l) g = elim (Bool-cases (k == id)) [
      | inl e ↦ rw e (ap (λ j. table_count store b j + references store l b) ((==_iff k id).0 e))
      | inr e ↦ rw e (omega (arith, parted store b l (ground (arith, count-cons id k l))))
    ]

pub IsSplit-last : (id : ℕ) (ids : List ℕ) → count id ids ≡ 0 → IsSplit id ids (ids ++ id ∷ [])
unfolding references
IsSplit-last id ids h = record {
  counts = λ a. ground (arith, count-append a ids (id ∷ []), count-cons a id [], count-nil a);
  apart = h;
  shares = λ store b. appended store b ids;
}
  where
    appended :
        (store : ℕ → Sequence) (b : ℕ) (l : List ℕ)
        → references store (l ++ id ∷ []) b
          ≡ count b (Sequence.block_table (store id)) + references store l b
    appended store b [] = omega arith
    appended store b (k ∷ l) = omega (arith, appended store b l)

pub references-write :
    (store : ℕ → Sequence) (ids : List ℕ) (id b : ℕ) (s : Sequence)
    → count id ids ≡ 0
    → references (write id s store) ids b ≡ references store ids b
unfolding references
references-write store [] id b s h = refl
references-write store (k ∷ ids) id b s h = omega (
  arith,
  references-write store ids id b s (omega (arith, count-cons id k ids)),
  ap (λ t. count b (Sequence.block_table t))
      (write-other id k s store (ground (arith, count-cons id k ids))),
)
