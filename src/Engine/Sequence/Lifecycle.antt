-- ===== src/Engine/Sequence/Lifecycle.antt =====
-- The life of a sequence: the invariants that its docstring states, over any sequence of its methods.
use turboserve.Prelude.Integers.{ℤ}
use turboserve.Prelude.{
  ℕ, ◌+◌, ◌≤◌, ◌<◌, ◌≡◌, refl, sym, ap, ◌∙◌, Bool, true, false, Option, none, some, List, [], ◌∷◌,
  ◌++◌, arith, length-append, ltb, if◌then◌else◌, ok, inl, inr, Bool-cases, ◌&&◌,
}
use mathlib.Core.List.{append-nil, append_assoc}
use turboserve.Engine.Sequence.{
  Sequence, FinishReason, SamplingParams, init, is_finished, num_tokens, num_prompt_tokens,
  num_uncomputed_tokens, num_new_tokens_to_compute, advance_computed, reset_for_recompute,
  append_token, finish,
}

abbrev pub has_reason : Option FinishReason → Bool
has_reason none = false
has_reason (some r) = true

pub record IsValid (s : Sequence) : Type 0 where
  pub prompted : 0 < num_prompt_tokens s
  pub computed : s.num_computed_tokens ≤ num_tokens s
  pub reasoned : is_finished s ≡ has_reason s.finish_reason

pub init-IsValid :
    (id : ℕ) (name prompt : List ℕ) (p : SamplingParams) (tenant : List ℕ) (priority : ℤ) (lora : ℕ)
    {s : Sequence}
    → init id name prompt p tenant priority lora ≡ ok s
    → IsValid s
unfolding init
init-IsValid id name prompt p tenant priority lora e = ground arith

-- One call of a method. Only a sequence that is not finished is preempted.
pub data Step (s : Sequence) : Sequence → Type 0 where
  appends : (token now : ℕ) → Step s (append_token token now s).1
  advances : (n : ℕ) → Step s (advance_computed n s).1
  finishes : (r : FinishReason) (stop : Option ℕ) (now : ℕ) → Step s (finish r stop now s)
  recomputes : is_finished s ≡ false → Step s (reset_for_recompute s)

pub data Reach (s : Sequence) : Sequence → Type 0 where
  here : Reach s s
  next : {t u : Sequence} → Reach s t → Step t u → Reach s u

Step-IsValid : {s t : Sequence} → Step s t → IsValid s → IsValid t
unfolding append_token advance_computed finish reset_for_recompute
Step-IsValid {s} (appends token now) v =
    ground
      (arith, length-append s.output_token_ids (token ∷ []), v.prompted, v.computed, v.reasoned)
Step-IsValid (advances n) v = ground arith
Step-IsValid (finishes r stop now) v = ground arith
Step-IsValid (recomputes h) v = ground arith

-- What a step keeps: the prompt and the adapter, the output as a prefix, and, once the sequence is
-- finished, its whole output and its finish reason.
record Kept (s t : Sequence) : Type 0 where
  prompt : t.prompt_token_ids ≡ s.prompt_token_ids
  adapter : t.lora_id ≡ s.lora_id
  grown : List ℕ
  output : t.output_token_ids ≡ s.output_token_ids ++ grown
  closed :
      is_finished s ≡ true
      → (is_finished t ≡ true)
        × (t.finish_reason ≡ s.finish_reason)
        × (t.output_token_ids ≡ s.output_token_ids)

Step-Kept : {s t : Sequence} → Step s t → Kept s t
unfolding append_token advance_computed finish reset_for_recompute
Step-Kept {s} (appends token now) = elim (Bool-cases (is_finished s)) [
  | inl h ↦ rw h (record {
    prompt = refl;
    adapter = refl;
    grown = [];
    output = sym (append-nil _);
    closed = λ e. (e, refl, refl);
  })
  | inr h ↦ rw h (record {
    prompt = refl;
    adapter = refl;
    grown = token ∷ [];
    output = refl;
    closed = λ e. cc;
  })
]
Step-Kept {s} (advances n) = record {
  prompt = ground arith;
  adapter = ground arith;
  grown = [];
  output = ground (arith, append-nil s.output_token_ids);
  closed = ground arith;
}
Step-Kept {s} (finishes r stop now) = record {
  prompt = ground arith;
  adapter = ground arith;
  grown = [];
  output = ground (arith, append-nil s.output_token_ids);
  closed = ground arith;
}
Step-Kept {s} (recomputes h) = record {
  prompt = refl;
  adapter = refl;
  grown = [];
  output = sym (append-nil s.output_token_ids);
  closed = λ e. cc;
}

Kept-trans : {s t u : Sequence} → Kept s t → Kept t u → Kept s u
Kept-trans {s} a b = record {
  prompt = b.prompt ∙ a.prompt;
  adapter = b.adapter ∙ a.adapter;
  grown = a.grown ++ b.grown;
  output =
      b.output ∙ ap (λ l. l ++ b.grown) a.output ∙ append_assoc s.output_token_ids a.grown b.grown;
  closed = λ e. let (f, r, o) = a.closed e in let (f', r', o') = b.closed f in (f', r' ∙ r, o' ∙ o);
}

Reach-Kept : {s t : Sequence} → Reach s t → Kept s t
Reach-Kept {s} here = record {
  prompt = refl;
  adapter = refl;
  grown = [];
  output = sym (append-nil s.output_token_ids);
  closed = λ e. (e, refl, refl);
}
Reach-Kept (next r st) = Kept-trans (Reach-Kept r) (Step-Kept st)

-- Whatever methods are called, with `reset_for_recompute` (which has no such guard of its own) called
-- of unfinished sequences only, a valid sequence stays
-- valid: its prompt is not empty, it has computed no more tokens than it holds, and it is finished
-- exactly when it has a finish reason.
pub Reach-IsValid : {s t : Sequence} → Reach s t → IsValid s → IsValid t
Reach-IsValid here v = v
Reach-IsValid (next r st) v = Step-IsValid st (Reach-IsValid r v)

-- The output only grows, also across preemption, and the prompt and the adapter stay.
pub Reach-output :
    {s t : Sequence}
    → Reach s t
    → (t.prompt_token_ids ≡ s.prompt_token_ids)
      × (t.lora_id ≡ s.lora_id)
      × ((grown : List ℕ) × (t.output_token_ids ≡ s.output_token_ids ++ grown))
Reach-output r = let k = Reach-Kept r in (k.prompt, k.adapter, (k.grown, k.output))

-- Whatever methods are called, with `reset_for_recompute` (which would change the status) called of
-- unfinished sequences only, a finished sequence stays finished, with its first finish reason and with
-- no further token.
pub Reach-finished :
    {s t : Sequence}
    → Reach s t
    → is_finished s ≡ true
    → (is_finished t ≡ true)
      × (t.finish_reason ≡ s.finish_reason)
      × (t.output_token_ids ≡ s.output_token_ids)
Reach-finished r h = (Reach-Kept r).closed h

-- What `num_new_tokens_to_compute` proposes for a valid sequence fits the budget and can be recorded
-- with no error; an unfinished sequence with tokens to compute is offered at least one where there
-- is a budget, and a finished one none.
pub advance_computed-num_new :
    (s : Sequence) (budget : ℕ)
    → IsValid s
    → (num_new_tokens_to_compute s budget ≤ budget)
      × ((advance_computed (num_new_tokens_to_compute s budget) s).0
          ≡ ok (s.num_computed_tokens + num_new_tokens_to_compute s budget))
      × (ltb 0 (num_new_tokens_to_compute s budget)
          ≡ (if is_finished s then false else ltb 0 budget && ltb 0 (num_uncomputed_tokens s)))
unfolding advance_computed num_new_tokens_to_compute
advance_computed-num_new s budget v = (ground arith, ground arith, ground arith)
