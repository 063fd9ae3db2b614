-- ===== src/Timer/Protocol.antt =====
-- One timer of the pool, and the atomic steps of the threads that add it, run it and cancel it,
-- in any order. A timer is used again and again; `generation` counts how often it was added.
-- `starts` and `cancels` count, by generation, the calls of its function and the calls of
-- `cancel_timer` that returned 0.
use p_base.Base.{
  ℕ, zero, suc, ◌+◌, ◌^◌, Bool, true, ◌&&◌, Option, none, some, ltb, ◌==◌, if◌then◌else◌, add32,
  List, [], ◌∷◌,
}
use p_base.Time.{Timespec}
use p_base.Timer.{
  Timer, try_delete, run_begin, run_end, add_begin, add_end, cancel_check, cancel_exchange,
}

-- A timer that no thread ever added; one in the pool; one whose version is not stored yet; one in
-- a bucket or in the heap; one whose function runs; one whose function returned; one at which the
-- assertion of `run_and_delete` failed, which ends the program.
pub data Place : Type 0 where
  fresh : Place
  pooled : Place
  adding : Place
  waiting : Place
  running_func : Place
  returned : Place
  aborted : Place

-- `checked` are the calls of `cancel_timer` behind the check of the name: the name that they were
-- given, and the generation when they looked.
pub record State : Type 0 where
  pub timer : Timer
  pub place : Place
  pub checked : List (ℕ × ℕ)
  pub generation : ℕ
  pub starts : ℕ → ℕ
  pub cancels : ℕ → ℕ

pub data Action : Type 0 where
  add_first : ℕ → ℕ → Timespec → Action
  add_last : Action
  remove : Action
  start : Action
  end_run : Action
  give_back : Action
  check : ℕ → Action
  exchange : ℕ → Action

abbrev pub count : ℕ → (ℕ → ℕ) → ℕ → ℕ
count g f h = if h == g then f h + 1 else f h

abbrev pub call_at : List (ℕ × ℕ) → ℕ → Option (ℕ × ℕ)
call_at [] k = none
call_at (c ∷ cs) zero = some c
call_at (c ∷ cs) (suc k) = call_at cs k

-- The pool gives the name that it was given back, and so the one that the timer has.
unfoldable pub begin_add : ℕ → ℕ → Timespec → State → State
unfolding add_begin
begin_add func arg abstime s = record s {
  timer = add_begin s.timer.timer_id func arg abstime s.timer;
  place = adding;
  generation = s.generation + 1;
}

-- An exchange that fails stores the version that it read in its argument, which the assertion behind
-- it adds 2 to.
unfoldable pub begin_run : State → State
unfolding run_begin
begin_run s =
    let (ok, t) = run_begin s.timer in
    if ok
    then record s { timer = t; place = running_func; starts = count s.generation s.starts }
    else record s { place = if t.version == add32 s.timer.version 2 then pooled else aborted }

unfoldable pub try_remove : State → State
unfolding try_delete
try_remove s = if try_delete s.timer then record s { place = pooled } else s

unfoldable pub try_check : ℕ → State → State
unfolding cancel_check
try_check timer_id s =
    if cancel_check timer_id s.timer
    then record s { checked = (timer_id, s.generation) ∷ s.checked }
    else s

unfoldable pub exchange_call : Option (ℕ × ℕ) → State → State
unfolding cancel_exchange
exchange_call none s = s
exchange_call (some (timer_id, g)) s =
    let (ok, t) = cancel_exchange timer_id s.timer in
    if ok then record s { timer = t; cancels = count g s.cancels } else s

unfoldable pub try_exchange : ℕ → State → State
unfolding exchange_call
try_exchange k s = exchange_call (call_at s.checked k) s

-- An action that cannot happen at the place of the timer leaves the state as it is. A caller knows
-- the name of a timer only when `add_timer` returned it.
unfoldable pub step_at : Place → Action → State → State
unfolding begin_add begin_run try_remove try_check try_exchange run_end add_end
step_at fresh (add_first func arg abstime) s = begin_add func arg abstime s
step_at pooled (add_first func arg abstime) s = begin_add func arg abstime s
step_at pooled (check timer_id) s = try_check timer_id s
step_at pooled (exchange k) s = try_exchange k s
step_at adding add_last s = record s { timer = add_end s.timer; place = waiting }
step_at adding (exchange k) s = try_exchange k s
step_at waiting remove s = try_remove s
step_at waiting start s = begin_run s
step_at waiting (check timer_id) s = try_check timer_id s
step_at waiting (exchange k) s = try_exchange k s
step_at running_func end_run s = record s { timer = run_end s.timer; place = returned }
step_at running_func (check timer_id) s = try_check timer_id s
step_at running_func (exchange k) s = try_exchange k s
step_at returned give_back s = record s { place = pooled }
step_at returned (check timer_id) s = try_check timer_id s
step_at returned (exchange k) s = try_exchange k s
step_at p a s = s

unfoldable pub run : List Action → State → State
unfolding step_at
run [] s = s
run (a ∷ actions) s = run actions (step_at s.place a s)

-- A call of `cancel_timer` goes on before its timer is added again 2 ^ 30 times.
abbrev pub prompt_call : Option (ℕ × ℕ) → State → Bool
prompt_call none s = true
prompt_call (some c) s = ltb s.generation (c.1 + 2 ^ 30)

abbrev pub prompt_step : Action → State → Bool
prompt_step (exchange k) s = prompt_call (call_at s.checked k) s
prompt_step a s = true

-- So do all the calls, along all the steps.
unfoldable pub all_prompt : List Action → State → Bool
unfolding step_at
all_prompt [] s = true
all_prompt (a ∷ actions) s = prompt_step a s && all_prompt actions (step_at s.place a s)

-- A timer before its first use, with the name that the arena gives it and any other contents.
abbrev pub unused : Timer → State
unused t = record {
  timer = t;
  place = fresh;
  checked = [];
  generation = 0;
  starts = λ _. 0;
  cancels = λ _. 0;
}
