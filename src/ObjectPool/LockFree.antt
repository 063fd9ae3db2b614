-- ===== src/ObjectPool/LockFree.antt =====
-- `LockFreeStack` of include/p/base/object_pool.h by its atomic steps, with any number of threads in
-- any order. A node is found by its name modulo 2 ^ 32; the upper half of a name is a version.
pub mod Invariant
pub mod Changes
pub mod Exchange
pub mod Steps
pub mod Order
mod Examples
use p_base.Base.{
  ℕ, zero, suc, ◌+◌, ◌^◌, true, false, ◌==◌, if◌then◌else◌, Option, none, some, List, [], ◌∷◌,
  add64, ◌>>=◌,
}
use p_base.ObjectPool.{group_key, set_at}
use p_base.ObjectPool.Stack.{LockFreeStack}

-- Where a call of a thread stands: `push` before its load of `head_`, before its write of `next`,
-- and before its exchange; `pop` before its load, before its read of `next`, and before its
-- exchange.
pub data Call : Type 0 where
  idle : Call
  pushing : ℕ → Call
  loaded : ℕ → ℕ → Call
  linked : ℕ → ℕ → Call
  popping : Call
  found : ℕ → Call
  followed : ℕ → ℕ → Call

-- Who has a node, under which name: some caller, a thread that pushes it, or the stack. A caller
-- pushes only what it has.
pub data Place : Type 0 where
  held : ℕ → Place
  given : ℕ → ℕ → Place
  stacked : ℕ → Place

-- What a call did at its last atomic step: the name that was pushed, the name that `pop` returns,
-- and a `pop` that returns 0.
pub data Done : Type 0 where
  pushed : ℕ → Done
  popped : ℕ → Done
  none_left : Done

-- The names are the keys of `place`, modulo 2 ^ 32; `log` has the latest call in front.
pub record Machine : Type 0 where
  pub stack : LockFreeStack
  pub place : ℕ → Place
  pub calls : ℕ → Call
  pub log : List Done

abbrev pub go_to : ℕ → Call → Machine → Machine
go_to t c s = record s { calls = set_at t c s.calls }

-- What a thread does next: begin a call, take its next step, or fail in the exchange, which a
-- weak exchange may do at any time.
pub data Action : Type 0 where
  begin_push : ℕ → Action
  begin_pop : Action
  advance : Action
  fail : Action

-- `value += 0x100000000ULL` of a name that a caller has.
unfoldable pub push_from : Place → ℕ → ℕ → Machine → Machine
push_from (held id) t value s =
    if id == value
    then go_to t (pushing (add64 value (2 ^ 32)))
        (record s { place = set_at (group_key value) (given t (add64 value (2 ^ 32))) s.place })
    else s
push_from (given u id) t value s = s
push_from (stacked id) t value s = s

unfoldable pub begin_push_at : Call → ℕ → ℕ → Machine → Machine
unfolding push_from
begin_push_at idle t value s =
    if group_key value == 0 then s else push_from (s.place (group_key value)) t value s
begin_push_at c t value s = s

unfoldable pub begin_pop_at : Call → ℕ → Machine → Machine
begin_pop_at idle t s = go_to t popping s
begin_pop_at c t s = s

unfoldable pub fail_at : Call → ℕ → Machine → Machine
fail_at (linked node p) t s = go_to t (pushing node) s
fail_at (followed p n) t s = go_to t popping s
fail_at c t s = s

-- `compare_exchange_weak` of `push` and of `pop`, where it does not fail at random.
unfoldable pub exchange_push : ℕ → ℕ → ℕ → Machine → Machine
exchange_push t node p s =
    if s.stack.head == p
    then record s {
      stack = record s.stack { head = node };
      place = set_at (group_key node) (stacked node) s.place;
      calls = set_at t idle s.calls;
      log = pushed node ∷ s.log;
    }
    else go_to t (pushing node) s

unfoldable pub exchange_pop : ℕ → ℕ → ℕ → Machine → Machine
exchange_pop t p n s =
    if s.stack.head == p
    then record s {
      stack = record s.stack { head = n };
      place = set_at (group_key p) (held p) s.place;
      calls = set_at t idle s.calls;
      log = popped p ∷ s.log;
    }
    else go_to t popping s

unfoldable pub advance_at : Call → ℕ → Machine → Machine
unfolding exchange_push exchange_pop
advance_at idle t s = s
advance_at (pushing node) t s = go_to t (loaded node s.stack.head) s
advance_at (loaded node p) t s =
    go_to t (linked node p)
      (record s { stack = record s.stack { next = set_at (group_key node) p s.stack.next } })
advance_at (linked node p) t s = exchange_push t node p s
advance_at popping t s =
    if s.stack.head == 0
    then record s { calls = set_at t idle s.calls; log = none_left ∷ s.log }
    else go_to t (found s.stack.head) s
advance_at (found p) t s = go_to t (followed p (s.stack.next (group_key p))) s
advance_at (followed p n) t s = exchange_pop t p n s

-- One atomic step of thread `t`.
unfoldable pub step_at : ℕ → Action → Machine → Machine
unfolding begin_push_at begin_pop_at advance_at fail_at
step_at t (begin_push value) s = begin_push_at (s.calls t) t value s
step_at t begin_pop s = begin_pop_at (s.calls t) t s
step_at t advance s = advance_at (s.calls t) t s
step_at t fail s = fail_at (s.calls t) t s

unfoldable pub run_steps : List (ℕ × Action) → Machine → Machine
unfolding step_at
run_steps [] s = s
run_steps ((t, a) ∷ steps) s = run_steps steps (step_at t a s)

-- An empty stack, where every node is held under its first name.
unfoldable pub new_machine : Machine
new_machine = record {
  stack = record { head = 0; next = λ k. 0 };
  place = λ k. held k;
  calls = λ t. idle;
  log = [];
}

-- The calls on a list with the top in front; `none` where one of them returns something else.
abbrev pub replay_pop : ℕ → List ℕ → Option (List ℕ)
replay_pop p [] = none
replay_pop p (id ∷ ids) = if id == p then some ids else none

abbrev pub replay_none : List ℕ → Option (List ℕ)
replay_none [] = some []
replay_none (id ∷ ids) = none

abbrev pub replay : List Done → Option (List ℕ)
replay [] = some []
replay (pushed id ∷ log) = replay log >>= λ ids. some (id ∷ ids)
replay (popped p ∷ log) = replay log >>= replay_pop p
replay (none_left ∷ log) = replay log >>= replay_none
