-- ===== src/Timer/Answers.antt =====
-- What `cancel_timer` answers.
use p_base.Base.{ℕ, ◌+◌, ◌^◌, ◌<◌, ◌≡◌, ◌≢◌, subst, arith, some, List, add32, true, false}
use p_base.Timer.{Timer, finished, base_version, cancel_answer, cancel_exchange}
use p_base.Timer.Protocol.{running_func, State, Action, call_at, run, unused, all_prompt}
use p_base.Timer.Once.{version_of, Now, run-IsGood, unused-IsGood}

-- While a function runs, the timer has the version behind its name.
running-version :
    (v : ℕ) (s : State)
    → Now v s.place s
    → s.place ≡ running_func
    → s.timer.version ≡ add32 (version_of v s.generation) 1
running-version v s n e = (subst (λ p. Now v p s) e n).1

cancel_exchange-other :
    (i : ℕ) (t : Timer) → t.version ≢ base_version i → (cancel_exchange i t).0 ≡ false
unfolding cancel_exchange
cancel_exchange-other i t ne = ground (arith, ne)

answer-same :
    (observed : ℕ) (t : Timer) → t.version ≡ observed → cancel_answer observed t ≡ finished
unfolding cancel_answer
answer-same observed t e = ground arith

-- A call that passed the check of the name and is not held up, as no other one is, while its timer is
-- added again 2 ^ 30 times: if the function of the timer runs at the call's exchange and still does
-- at its last look, whatever others do between, the exchange fails and the call answers that the timer
-- is finished, as it does for one that is not there, and not that it runs.
pub cancel_answer-running_func :
    (t : Timer) (actions more : List Action) (k i g : ℕ)
    → let s = run actions (unused t) in
      let s' = run more (run actions (unused t)) in
      all_prompt actions (unused t) ≡ true
      → all_prompt more s ≡ true
      → call_at s.checked k ≡ some (i, g)
      → s.generation < g + 2 ^ 30
      → s.place ≡ running_func
      → s'.place ≡ running_func
      → s'.generation ≡ s.generation
      → ((cancel_exchange i s.timer).0 ≡ false)
        × (cancel_answer s.timer.version s'.timer ≡ finished)
cancel_answer-running_func t actions more k i g u u' call prompt e e' same =
    let v = base_version t.timer_id in
    let s = run actions (unused t) in
    let s' = run more s in
    let good = run-IsGood v actions (unused t) u (unused-IsGood t) in
    let good' = run-IsGood v more s u' good in
    let w = running-version v s good.1 e in
    let w' = running-version v s' good'.1 e' in
    let (a, b) = good.0.calls k i g call in
    (
      cancel_exchange-other i s.timer (λ q. omega (arith, w, a, b, prompt, q)),
      answer-same s.timer.version s'.timer (omega (arith, w, w', same)),
    )
