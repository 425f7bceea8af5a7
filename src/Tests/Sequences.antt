-- ===== src/Tests/Sequences.antt =====
-- A request with a prompt of three tokens.
use turboserve.Prelude.Integers.{pos}
use turboserve.Prelude.{
  ℕ, ◌+◌, ◌≤◌, ◌≡◌, refl, true, false, ◌&&◌, none, some, List, [], ◌∷◌, ltb, if◌then◌else◌, ok,
  arith,
}
use turboserve.Engine.Sequence.{
  Sequence, waiting, stop, append_token, finish, is_finished, num_uncomputed_tokens,
  num_new_tokens_to_compute, advance_computed,
}
use turboserve.Engine.Sequence.Lifecycle.{
  IsValid, Reach, here, next, appends, advances, finishes, Reach-IsValid, Reach-finished,
  advance_computed-num_new,
}

abbrev pub request : ℕ → List ℕ → Sequence
request id table = record {
  seq_id = id;
  request_id = b'r' ∷ id ∷ [];
  tenant_id = b'a' ∷ [];
  priority = pos 0;
  prompt_token_ids = 5 ∷ 6 ∷ 7 ∷ [];
  sampling = record { max_tokens = 4; stop_token_ids = []; ignore_eos = false };
  lora_id = 0;
  output_token_ids = 8 ∷ 9 ∷ [];
  block_table = table;
  num_computed_tokens = 0;
  status = waiting;
  finish_reason = none;
  stop_token_id = none;
  timing = record {
    t_arrival = some 0;
    t_first_scheduled = none;
    t_first_token = some 1;
    t_finish = none;
    num_cached_prompt_tokens = 0;
  };
  num_preemptions = 0;
}

abbrev s0 : Sequence
s0 = request 0 []

s0-IsValid : IsValid s0
s0-IsValid = record { prompted = omega arith; computed = omega arith; reasoned = refl }

abbrev s1 : Sequence
s1 = (append_token 11 2 (advance_computed 5 s0).1).1

-- The request computes its five tokens, gets one more and finishes.
path : Reach s0 (finish stop none 3 s1)
path = next (next (next here (advances 5)) (appends 11 2)) (finishes stop none 3)

late : Reach (finish stop none 3 s1) (append_token 12 4 (finish stop none 3 s1)).1
late = next here (appends 12 4)

Reach-IsValid_example : IsValid (finish stop none 3 s1)
Reach-IsValid_example = Reach-IsValid path s0-IsValid

stopped : is_finished (finish stop none 3 s1) ≡ true
unfolding finish append_token advance_computed
stopped = refl

Reach-finished_example :
    (is_finished (append_token 12 4 (finish stop none 3 s1)).1 ≡ true)
    × ((append_token 12 4 (finish stop none 3 s1)).1.finish_reason
        ≡ (finish stop none 3 s1).finish_reason)
    × ((append_token 12 4 (finish stop none 3 s1)).1.output_token_ids
        ≡ (finish stop none 3 s1).output_token_ids)
Reach-finished_example = Reach-finished late stopped

advance_computed-num_new_example :
    (num_new_tokens_to_compute s0 4 ≤ 4)
    × ((advance_computed (num_new_tokens_to_compute s0 4) s0).0
        ≡ ok (s0.num_computed_tokens + num_new_tokens_to_compute s0 4))
    × (ltb 0 (num_new_tokens_to_compute s0 4)
        ≡ (if is_finished s0 then false else ltb 0 4 && ltb 0 (num_uncomputed_tokens s0)))
advance_computed-num_new_example = advance_computed-num_new s0 4 s0-IsValid
