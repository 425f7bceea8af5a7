-- ===== src/Engine/Scheduler/Frames.antt =====
-- One of a scheduler's sequences in the frame of the others, before a method of the block manager and after
-- it (turboserve/engine/core/block_manager.py).
use turboserve.Prelude.{
  ℕ, ◌*◌, ◌≤◌, ◌<◌, ◌≡◌, ◌≢◌, refl, sym, ap, subst, ◌∙◌, fun_ext, Bool, true, false, List, [], ◌∷◌,
  inl, inr, arith, get_elem?, count, count-nil, ◌==◌, Bool-cases, ==_iff,
}
use turboserve.Prelude.Dict.{get}
use turboserve.Prelude.Keys.{nat_eq}
use turboserve.Engine.BlockAllocator.{refs_at}
use turboserve.Engine.Sequence.{Sequence, SeqStatus}
use turboserve.Engine.BlockManager.{BlockManager, Work}
use turboserve.Engine.BlockManager.Pool.{IsPool}
use turboserve.Engine.BlockManager.Ownership.{IsOwned, IsPrivate}
use turboserve.Engine.BlockManager.Adoption.{IsManaged}
use turboserve.Engine.BlockManager.Keeping.{IsKeptAs}
use turboserve.Engine.Scheduler.{write}
use turboserve.Engine.Scheduler.Holdings.{
  references, published_in, Holds, IsHolding, IsFramed, PrivateTo, write-same, write-other,
  PrivateTo-IsPrivate, frame_of, IsSplit, references-write,
}

pub Framed-part :
    {m : BlockManager} {store : ℕ → Sequence} {ids : List ℕ} (id : ℕ) (rest : List ℕ)
    → IsSplit id rest ids
    → IsHolding m store ids
    → IsFramed m store rest
Framed-part {m} {store} id rest s v = record {
  pool = v.pool;
  bound = λ b. omega (arith, v.counted b, s.shares store b);
  each = λ k h. v.each k (omega (arith, s.counts k));
}

pub Framed-all :
    {m : BlockManager} {store : ℕ → Sequence} {ids : List ℕ}
    → IsHolding m store ids
    → IsFramed m store ids
Framed-all v = record { pool = v.pool; bound = λ b. omega (arith, v.counted b); each = v.each }

module _ {m : BlockManager} {store : ℕ → Sequence} {rest ids : List ℕ} (id : ℕ) where
  -- One of the sequences, in the frame of the others.
  pub focus :
      (v : IsFramed m store rest)
      → IsSplit id rest ids
      → IsHolding m store ids
      → IsManaged (frame_of v) (record { manager = m; seq = store id })
  focus v s h =
      let o = h.each id (ground (arith, s.counts id)) in
      record {
        blocks = o.blocks;
        known = o.known;
        owned = record {
          pool = h.pool;
          counted = λ b. omega (arith, h.counted b, s.shares store b);
          framed = PrivateTo-IsPrivate v;
          own = λ i b l e. o.own i b (omega (arith, ap published_in o.known, l)) e;
        };
        complete = o.complete;
      }

  -- The others after a method on `id`.
  others_hold :
      (v : IsFramed m store rest) (r : Work) (t : SeqStatus)
      → IsSplit id rest ids
      → Sequence.seq_id (store id) ≡ id
      → IsKeptAs t (record { manager = m; seq = store id }) r
      → ((b : ℕ) → PrivateTo m store rest b → IsPrivate r.manager.allocator b)
      → (k : ℕ) → 0 < count k rest
      → Holds r.manager k (write id r.seq store k)
  others_hold v r t s n w f k h =
      let o = v.each k h in
      let other : id ≢ k = λ e. omega (arith, h, s.apart, ap (λ j. count j rest) e) in
      let same : get r.manager.state (Sequence.seq_id (store k))
          ≡ get m.state (Sequence.seq_id (store k)) =
        w.others _ (λ e. other (sym n ∙ e ∙ o.named)) in
      subst (Holds r.manager k) (sym (write-other id k r.seq store other)) (record {
        named = o.named;
        blocks = o.blocks;
        known = same ∙ o.known;
        complete =
            subst (λ z. o.blocks.num_published * z ≤ Sequence.num_computed_tokens (store k))
              (sym w.same_size) o.complete;
        own = λ i b l e. f b (k, h, (i, omega (arith, ap published_in same, l), e));
      })

  -- After a method that leaves `id` managed, all hold their blocks.
  pub join :
      (v : IsFramed m store rest) (r : Work) (t : SeqStatus)
      → IsSplit id rest ids
      → Sequence.seq_id (store id) ≡ id
      → IsKeptAs t (record { manager = m; seq = store id }) r
      → IsManaged (frame_of v) r
      → IsHolding r.manager (write id r.seq store) ids
  join v r t s n w g = record {
    pool = g.owned.pool;
    counted = λ b. omega (
      arith,
      g.owned.counted b,
      s.shares (write id r.seq store) b,
      references-write store rest id b r.seq s.apart,
      ap (λ q. count b (Sequence.block_table q)) (write-same id r.seq store),
    );
    each = λ k h. elim (Bool-cases (id == k)) [
      | inl e ↦
          subst (λ j. Holds r.manager j (write id r.seq store j)) ((==_iff id k).0 e)
            (subst (Holds r.manager id) (sym (write-same id r.seq store)) (record {
              named = w.same_id ∙ n;
              blocks = g.blocks;
              known = g.known;
              complete = g.complete;
              own = λ i b l q. g.owned.own i b (omega (arith, ap published_in g.known, l)) q;
            }))
      | inr e ↦ others_hold v r t s n w g.owned.framed k (ground (arith, s.counts k, e))
    ];
  }

  -- After a method that takes the blocks of `id` away, the others hold theirs.
  pub leave :
      (v : IsFramed m store rest) (r : Work) (t : SeqStatus)
      → IsSplit id rest ids
      → Sequence.seq_id (store id) ≡ id
      → IsKeptAs t (record { manager = m; seq = store id }) r
      → IsPool r.manager.allocator
      → ((b : ℕ) → refs_at r.manager.allocator b ≡ references store rest b)
      → ((b : ℕ) → PrivateTo m store rest b → IsPrivate r.manager.allocator b)
      → IsHolding r.manager (write id r.seq store) rest
  leave v r t s n w p c f = record {
    pool = p;
    counted = λ b. c b ∙ sym (references-write store rest id b r.seq s.apart);
    each = others_hold v r t s n w f;
  }

-- What a sequence that holds nothing sees before its admission.
pub unowned :
    {m : BlockManager} {store : ℕ → Sequence} {ids : List ℕ} (v : IsFramed m store ids)
    → IsHolding m store ids
    → IsOwned (frame_of v) m.allocator [] 0
unowned v h = record {
  pool = h.pool;
  counted = λ b. omega (arith, h.counted b, count-nil b);
  framed = PrivateTo-IsPrivate v;
  own = λ i b l e. cc;
}

-- Writing to a sequence what does not concern its blocks.
pub record SameBlocks (s t : Sequence) : Type 0 where
  pub same_id : t.seq_id ≡ s.seq_id
  pub same_table : t.block_table ≡ s.block_table
  pub progress : s.num_computed_tokens ≤ t.num_computed_tokens

pub write-write :
    (id : ℕ) (s t : Sequence) (store : ℕ → Sequence)
    → write id t (write id s store) ≡ write id t store
write-write id s t store = fun_ext λ k. ground arith

pub write_self : (id : ℕ) (store : ℕ → Sequence) → write id (store id) store ≡ store
write_self id store = fun_ext λ k. elim (Bool-cases (k == id)) [
  | inl e ↦ rw e (ap store (sym ((==_iff k id).0 e)))
  | inr e ↦ rw e refl
]

references-cong :
    (f g : ℕ → Sequence) (l : List ℕ) (b : ℕ)
    → ((k : ℕ) → Sequence.block_table (f k) ≡ Sequence.block_table (g k))
    → references f l b ≡ references g l b
unfolding references
references-cong f g [] b h = refl
references-cong f g (k ∷ l) b h = omega (arith, ap (count b) (h k), references-cong f g l b h)

pub touch :
    {m : BlockManager} {store : ℕ → Sequence} {ids : List ℕ} (id : ℕ) (t : Sequence)
    → IsHolding m store ids
    → SameBlocks (store id) t
    → IsHolding m (write id t store) ids
touch {m} {store} {ids} id t h s = record {
  pool = h.pool;
  counted = λ b. h.counted b ∙ sym (same_references ids b);
  each = λ k g. elim (Bool-cases (id == k)) [
    | inr e ↦
        subst (Holds m k)
          (sym (write-other id k t store (λ p. ground (arith, p, (==_iff id k).1 p, e))))
          (h.each k g)
    | inl e ↦
        let same = (==_iff id k).0 e in
        let o = h.each k g in
        let at : write id t store k ≡ t =
          subst (λ j. write id t store j ≡ t) same (write-same id t store) in
        let here : store id ≡ store k = ap store same in
        subst (Holds m k) (sym at) (record {
          named = s.same_id ∙ ap Sequence.seq_id here ∙ o.named;
          blocks = o.blocks;
          known = ap (get m.state) (s.same_id ∙ ap Sequence.seq_id here) ∙ o.known;
          complete = omega (arith, o.complete, s.progress, ap Sequence.num_computed_tokens here);
          own = λ i b l q.
              o.own i b
                (omega (
                  arith,
                  l,
                  ap (λ j. published_in (get m.state j)) (s.same_id ∙ ap Sequence.seq_id here),
                ))
                (ap (λ x. get_elem? x i) (sym (s.same_table ∙ ap Sequence.block_table here)) ∙ q);
        })
  ];
}
  where
    same_references :
        (l : List ℕ) (b : ℕ) → references (write id t store) l b ≡ references store l b
    same_references l b =
        references-cong (write id t store) store l b (λ k. same_at k (k == id) refl)
      where
        same_at :
            (k : ℕ) (e : Bool)
            → (k == id) ≡ e
            → Sequence.block_table (write id t store k) ≡ Sequence.block_table (store k)
        same_at k true e =
            rw e (s.same_table ∙ ap (λ j. Sequence.block_table (store j)) (sym ((==_iff k id).0 e)))
        same_at k false e = rw e refl
