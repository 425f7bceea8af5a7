-- ===== src/Engine/WaitQueue.antt =====
-- _WaitQueue (turboserve/engine/core/scheduler.py): the requests that wait for admission, first come
-- first served or by weighted fair queueing. A queue holds references to sequences: their ids. The
-- charge `1 / weight` is counted in a unit in which the charges are whole numbers.
pub mod Backlogs
pub mod Contents
pub mod Times
pub mod Fairness
pub mod Relabelling
use turboserve.Prelude.{
  ℕ, ◌+◌, max, Bool, true, false, Option, none, some, List, [], ◌∷◌, ◌++◌, length, mem, ltb, ◌==◌,
  if◌then◌else◌, Result, ok, err, index_error, key_error, Exec,
}
use turboserve.Prelude.Dict.{Dict, get, put, remove}
use turboserve.Prelude.Keys.{bytes_eq}
use turboserve.Engine.Sequence.{Sequence}

abbrev pub Tenant : Type 0
Tenant = List ℕ

pub record WaitQueue : Type 0 where
  pub tenant_fair : Bool
  -- `1 / weight` of the configured tenants, and of all others.
  pub charges : Dict Tenant ℕ
  pub unit : ℕ
  pub fifo : List ℕ
  pub queues : Dict Tenant (List ℕ)
  pub vtime : Dict Tenant ℕ
  pub now : ℕ

unfoldable pub init : Bool → Dict Tenant ℕ → ℕ → WaitQueue
init tenant_fair charges unit = record {
  tenant_fair = tenant_fair;
  charges = charges;
  unit = unit;
  fifo = [];
  queues = [];
  vtime = [];
  now = 0;
}

-- `d.get(key, default)`
abbrev pub get_default {ℓ} : {A : Type ℓ} → Option A → A → A
get_default none d = d
get_default (some a) d = a

-- `1 / weight_of(tenant)`
abbrev pub charge_of : WaitQueue → Tenant → ℕ
charge_of q t = get_default (get q.charges t) q.unit

abbrev pub time_of : Dict Tenant ℕ → Tenant → ℕ
time_of vtime t = get_default (get vtime t) 0

-- Python's `<` on strings.
abbrev pub ltb_text : List ℕ → List ℕ → Bool
ltb_text xs [] = false
ltb_text [] (y ∷ ys) = true
ltb_text (x ∷ xs) (y ∷ ys) = if ltb x y then true else if x == y then ltb_text xs ys else false

-- `(vtime, tenant)` of `s` is before that of `t`.
unfoldable pub is_before : Dict Tenant ℕ → Tenant → Tenant → Bool
is_before vtime s t =
    if ltb (time_of vtime s) (time_of vtime t)
    then true
    else if time_of vtime s == time_of vtime t
    then ltb_text s t
    else false

-- `min` over the keys that are left, with the least one so far.
unfoldable pub least : Dict Tenant ℕ → Tenant → Dict Tenant (List ℕ) → Tenant
unfolding is_before
least vtime t [] = t
least vtime t ((u, l) ∷ d) = least vtime (if is_before vtime u t then u else t) d

unfoldable pub next_in : Dict Tenant ℕ → Dict Tenant (List ℕ) → Option Tenant
unfolding least
next_in vtime [] = none
next_in vtime ((t, l) ∷ d) = some (least vtime t d)

abbrev pub next_tenant : WaitQueue → Option Tenant
next_tenant q = next_in q.vtime q.queues

-- `self._queues[tenant] = queue`, or its deletion when the queue is empty.
abbrev pub keep_queue : Tenant → List ℕ → Dict Tenant (List ℕ) → Dict Tenant (List ℕ)
keep_queue t [] d = remove d t
keep_queue t (x ∷ xs) d = put d t (x ∷ xs)

-- `push` of a tenant that has a queue, and of one that becomes backlogged.
unfoldable pub push_to : Option (List ℕ) → Sequence → WaitQueue → WaitQueue
push_to (some l) s q = record q { queues = put q.queues s.tenant_id (l ++ s.seq_id ∷ []) }
push_to none s q = record q {
  queues = put q.queues s.tenant_id (s.seq_id ∷ []);
  vtime = put q.vtime s.tenant_id (max (time_of q.vtime s.tenant_id) q.now);
}

-- The two policies, each with the Boolean of `tenant_fair`.
unfoldable pub push_by : Bool → Sequence → WaitQueue → WaitQueue
unfolding push_to
push_by true s q = push_to (get q.queues s.tenant_id) s q
push_by false s q = record q { fifo = q.fifo ++ s.seq_id ∷ [] }

unfoldable pub push : Sequence → WaitQueue → WaitQueue
unfolding push_by
push s q = push_by q.tenant_fair s q

-- `queue[0]`
unfoldable pub first : Option (List ℕ) → Result (Option ℕ)
first none = err key_error
first (some []) = err index_error
first (some (x ∷ xs)) = ok (some x)

abbrev pub front : List ℕ → Option ℕ
front [] = none
front (x ∷ xs) = some x

unfoldable pub peek_next : Option Tenant → WaitQueue → Result (Option ℕ)
unfolding first
peek_next none q = ok none
peek_next (some t) q = first (get q.queues t)

unfoldable pub peek_by : Bool → WaitQueue → Result (Option ℕ)
unfolding peek_next next_in
peek_by true q = peek_next (next_tenant q) q
peek_by false q = ok (front q.fifo)

unfoldable pub peek : WaitQueue → Result (Option ℕ)
unfolding peek_by
peek q = peek_by q.tenant_fair q

unfoldable pub pop_fifo : List ℕ → Exec WaitQueue ℕ
pop_fifo [] q = (err index_error, q)
pop_fifo (x ∷ xs) q = (ok x, record q { fifo = xs })

-- The tenant's virtual time is charged, and the clock moves there.
unfoldable pub charged : Tenant → ℕ → List ℕ → Option ℕ → Exec WaitQueue ℕ
charged t x xs none q = (err key_error, record q { queues = put q.queues t xs })
charged t x xs (some v) q = (
  ok x,
  record q {
    queues = keep_queue t xs q.queues;
    vtime = put q.vtime t (v + charge_of q t);
    now = v + charge_of q t;
  },
)

unfoldable pub pop_from : Tenant → Option (List ℕ) → Exec WaitQueue ℕ
unfolding charged
pop_from t none q = (err key_error, q)
pop_from t (some []) q = (err index_error, q)
pop_from t (some (x ∷ xs)) q = charged t x xs (get q.vtime t) q

unfoldable pub pop_next : Option Tenant → Exec WaitQueue ℕ
unfolding pop_from
pop_next none q = (err index_error, q)
pop_next (some t) q = pop_from t (get q.queues t) q

unfoldable pub pop_by : Bool → Exec WaitQueue ℕ
unfolding pop_fifo pop_next next_in
pop_by true q = pop_next (next_tenant q) q
pop_by false q = pop_fifo q.fifo q

unfoldable pub pop : Exec WaitQueue ℕ
unfolding pop_by
pop q = pop_by q.tenant_fair q

-- `deque.remove`: the first occurrence.
unfoldable pub remove_first : ℕ → List ℕ → List ℕ
remove_first a [] = []
remove_first a (x ∷ xs) = let rest = remove_first a xs in if x == a then xs else x ∷ rest

unfoldable pub remove_from : Option (List ℕ) → Sequence → WaitQueue → Bool × WaitQueue
unfolding remove_first
remove_from none s q = (false, q)
remove_from (some l) s q =
    if mem s.seq_id l
    then (true, record q { queues = keep_queue s.tenant_id (remove_first s.seq_id l) q.queues })
    else (false, q)

unfoldable pub remove_by : Bool → Sequence → WaitQueue → Bool × WaitQueue
unfolding remove_from remove_first
remove_by true s q = remove_from (get q.queues s.tenant_id) s q
remove_by false s q =
    if mem s.seq_id q.fifo
    then (true, record q { fifo = remove_first s.seq_id q.fifo })
    else (false, q)

unfoldable pub remove_seq : Sequence → WaitQueue → Bool × WaitQueue
unfolding remove_by
remove_seq s q = remove_by q.tenant_fair s q

unfoldable pub clear : WaitQueue → WaitQueue
clear q = record q { fifo = []; queues = []; vtime = []; now = 0 }

-- `[seq for queue in queues.values() for seq in queue]`
unfoldable pub entries : Dict Tenant (List ℕ) → List ℕ
entries [] = []
entries ((t, l) ∷ d) = l ++ entries d

-- `sum(len(queue) for queue in queues.values())`
unfoldable pub total : Dict Tenant (List ℕ) → ℕ
total [] = 0
total ((t, l) ∷ d) = length l + total d

unfoldable pub size_by : Bool → WaitQueue → ℕ
unfolding total
size_by true q = total q.queues
size_by false q = length q.fifo

unfoldable pub size : WaitQueue → ℕ
unfolding size_by
size q = size_by q.tenant_fair q

unfoldable pub contents_by : Bool → WaitQueue → List ℕ
unfolding entries
contents_by true q = entries q.queues
contents_by false q = q.fifo

unfoldable pub contents : WaitQueue → List ℕ
unfolding contents_by
contents q = contents_by q.tenant_fair q
