-- ===== src/Timer/Once.antt =====
-- Every timer runs once or is cancelled once, and never both.
use native.Mathlib.Decide.{dec_lt}
use p_base.Base.{
  ℕ, zero, suc, ◌+◌, ◌*◌, ◌%◌, ◌^◌, ◌≤◌, ◌<◌, ◌≡◌, ◌≢◌, refl, subst, sym, arith, true, false,
  Option, none, some, ◌==◌, inl, inr, ◌⊎◌, Bool-cases, List, [], ◌∷◌, add32,
}
use p_base.Time.{Timespec}
use p_base.Timer.{
  Timer, base_version, try_delete, run_begin, add_begin, cancel_check, cancel_exchange,
}
use p_base.Timer.Protocol.{
  Place, fresh, pooled, adding, waiting, running_func, returned, aborted, State, Action, add_first,
  add_last, remove, start, end_run, give_back, check, exchange, count, call_at, begin_add,
  begin_run, try_remove, try_check, exchange_call, step_at, run, unused, prompt_call, prompt_step,
  all_prompt,
}

-- The version that the timer of generation `g` is added with.
abbrev pub version_of : ℕ → ℕ → ℕ
version_of v g = (v + 3 * g) % 2 ^ 32

abbrev pub times : State → ℕ → ℕ
times s g = s.starts g + s.cancels g

-- What holds at every place.
pub record IsKept (v : ℕ) (s : State) : Type 0 where
  pub name : base_version s.timer.timer_id ≡ version_of v s.generation
  pub past : (g : ℕ) → 1 ≤ g → g < s.generation → times s g ≡ 1
  pub future : (g : ℕ) → s.generation < g → times s g ≡ 0
  pub calls :
      (k i g : ℕ)
      → call_at s.checked k ≡ some (i, g)
      → (g ≤ s.generation) × (base_version i ≡ version_of v g)

-- What holds at each place: the version, and whether the timer ran or was cancelled.
abbrev pub Now : ℕ → Place → State → Type 0
Now v fresh s = (s.generation ≡ 0) × (s.checked ≡ [])
Now v adding s =
    (1 ≤ s.generation)
    × (times s s.generation ≡ 0)
    × ((k i g : ℕ)
        → call_at s.checked k ≡ some (i, g)
        → (g < s.generation) × (add32 s.timer.version 1 ≡ version_of v s.generation))
Now v waiting s =
    (1 ≤ s.generation)
    × (((s.timer.version ≡ version_of v s.generation) × (times s s.generation ≡ 0))
        ⊎ ((s.timer.version ≡ add32 (version_of v s.generation) 2) × (times s s.generation ≡ 1)))
Now v running_func s =
    (1 ≤ s.generation)
    × (s.timer.version ≡ add32 (version_of v s.generation) 1)
    × (times s s.generation ≡ 1)
Now v returned s =
    (1 ≤ s.generation)
    × (s.timer.version ≡ add32 (version_of v s.generation) 2)
    × (times s s.generation ≡ 1)
Now v pooled s =
    (1 ≤ s.generation)
    × (s.timer.version ≡ add32 (version_of v s.generation) 2)
    × (times s s.generation ≡ 1)
Now v aborted s =
    (1 ≤ s.generation)
    × (s.timer.version ≡ add32 (version_of v s.generation) 2)
    × (times s s.generation ≡ 1)

abbrev pub IsGood : ℕ → State → Type 0
IsGood v s = IsKept v s × Now v s.place s

begin_add-IsGood :
    (v func arg : ℕ) (abstime : Timespec) (s : State)
    → IsKept v s
    → ((g : ℕ) → 1 ≤ g → g < s.generation + 1 → times s g ≡ 1)
    → ((k i g : ℕ)
        → call_at s.checked k ≡ some (i, g)
        → add32 s.timer.version 1 ≡ version_of v (s.generation + 1))
    → IsGood v (begin_add func arg abstime s)
unfolding begin_add add_begin base_version
begin_add-IsGood v func arg abstime s c ready old = (
  record {
    name = omega (arith, c.name);
    past = ready;
    future = λ g h. c.future g (omega arith);
    calls = λ k i g h. (omega (arith, (c.calls k i g h).0), (c.calls k i g h).1);
  },
  (
    omega arith,
    c.future (s.generation + 1) (omega arith),
    λ k i g h. (omega (arith, (c.calls k i g h).0), old k i g h),
  ),
)

IsGood-same : (v : ℕ) (s : State) (p : Place) → IsKept v s → Now v p s → p ≡ s.place → IsGood v s
IsGood-same v s p c n e = (c, subst (λ q. Now v q s) e n)

-- A call that passes the check sees the timer of this generation.
try_check-IsGood :
    (v timer_id : ℕ) (s : State) (p : Place)
    → ((calls : List (ℕ × ℕ)) → Now v p s → Now v p (record s { checked = calls }))
    → IsKept v s
    → Now v p s
    → p ≡ s.place
    → IsGood v (try_check timer_id s)
unfolding try_check cancel_check
try_check-IsGood v timer_id s p same c n e = elim (Bool-cases (timer_id == s.timer.timer_id)) [
  | inr other ↦ rw other (IsGood-same v s p c n e)
  | inl found ↦ rw found (
    record { name = c.name; past = c.past; future = c.future; calls = with_call (ground arith) },
    subst (λ q. Now v q (record s { checked = (timer_id, s.generation) ∷ s.checked })) e
        (same ((timer_id, s.generation) ∷ s.checked) n),
  )
]
  where
    with_call :
        timer_id ≡ s.timer.timer_id
        → (k i g : ℕ) → call_at ((timer_id, s.generation) ∷ s.checked) k ≡ some (i, g)
        → (g ≤ s.generation) × (base_version i ≡ version_of v g)
    with_call f zero i g h = ground (arith, c.name)
    with_call f (suc k) i g h = c.calls k i g h

-- Whether a call's exchange succeeds.
abbrev Matches : State → ℕ → ℕ → Type 0
Matches s i g = (s.generation < g + 2 ^ 30) × (s.timer.version ≡ base_version i)

abbrev exchanged : State → ℕ → ℕ → State
exchanged s i g = record s {
  timer = record s.timer { version = add32 (base_version i) 2 };
  cancels = count g s.cancels;
}

exchange_call-cases :
    (s : State) (i g : ℕ)
    → s.generation < g + 2 ^ 30
    → (exchange_call (some (i, g)) s ≡ s)
      ⊎ (Matches s i g × (exchange_call (some (i, g)) s ≡ exchanged s i g))
unfolding exchange_call cancel_exchange
exchange_call-cases s i g prompt = elim (Bool-cases (s.timer.version == base_version i)) [
  | inr other ↦ inl (rw other refl)
  | inl same ↦ inr ((prompt, ground arith), rw same refl)
]

-- The exchange of a call leaves a good state good, where the state that it makes of a version
-- that matches is good.
exchange_call-IsGood :
    (v : ℕ) (s : State) (c : Option (ℕ × ℕ))
    → prompt_call c s ≡ true
    → IsGood v s
    → ((i g : ℕ) → c ≡ some (i, g) → Matches s i g → IsGood v (exchanged s i g))
    → IsGood v (exchange_call c s)
unfolding exchange_call
exchange_call-IsGood v s none u good h = good
exchange_call-IsGood v s (some (i, g)) u good h = elim (exchange_call-cases s i g (ground arith)) [
  | inl e ↦ subst (IsGood v) (sym e) good
  | inr (both, e) ↦ subst (IsGood v) (sym e) (h i g refl both)
]

-- A version that matches is that of this generation, which nobody ran or cancelled.
exchange_waiting-IsGood :
    (v i g : ℕ) (s : State)
    → (g ≤ s.generation) × (base_version i ≡ version_of v g)
    → Matches s i g
    → IsKept v s
    → Now v waiting s
    → waiting ≡ s.place
    → IsGood v (exchanged s i g)
exchange_waiting-IsGood v i g s (a, b) (t, w) c (pos, inr (q, r)) e = absurd (omega arith)
exchange_waiting-IsGood v i g s (a, b) (t, w) c (pos, inl (q, r)) e =
    let same : g ≡ s.generation = omega arith in
    (
      record {
        name = c.name;
        past = λ h x y. ground (arith, c.past h x y);
        future = λ h x. ground (arith, c.future h x);
        calls = c.calls;
      },
      subst (λ p. Now v p (exchanged s i g)) e (pos, inr (omega (arith, b), ground arith)),
    )

-- No call's exchange succeeds while the timer runs and once it ran or was cancelled.
no_match :
    (v d k i g : ℕ) (s : State)
    → 1 ≤ d
    → d ≤ 2
    → IsKept v s
    → s.timer.version ≡ add32 (version_of v s.generation) d
    → call_at s.checked k ≡ some (i, g)
    → ¬ Matches s i g
no_match v d k i g s l u c e h (t, w) = let (a, b) = c.calls k i g h in omega arith

-- Nor does it before the version is stored.
no_match_adding :
    (v k i g : ℕ) (s : State)
    → IsKept v s
    → Now v adding s
    → call_at s.checked k ≡ some (i, g)
    → ¬ Matches s i g
no_match_adding v k i g s c n h (t, w) =
    let (a, b) = c.calls k i g h in let (x, y) = n.2 k i g h in omega arith

pooled-IsGood :
    (v : ℕ) (s : State) → IsKept v s → Now v pooled s → IsGood v (record s { place = pooled })
pooled-IsGood v s c n =
    (record { name = c.name; past = c.past; future = c.future; calls = c.calls }, n)

no_call : (calls : List (ℕ × ℕ)) (k : ℕ) (c : ℕ × ℕ) → calls ≡ [] → call_at calls k ≡ some c → ⊥
no_call [] k c e h = cc
no_call (d ∷ ds) k c e h = cc

up_to_now :
    (v : ℕ) (s : State)
    → IsKept v s
    → times s s.generation ≡ 1
    → (g : ℕ) → 1 ≤ g
    → g ≤ s.generation
    → times s g ≡ 1
up_to_now v s c once g x y = elim (dec_lt g s.generation) [
  | yes p ↦ c.past g x p
  | no p ↦ (let e : g ≡ s.generation = omega arith in rw e once)
]

-- A waiting timer with another version was cancelled.
gone_once :
    (v : ℕ) (s : State)
    → IsKept v s
    → Now v waiting s
    → s.timer.version ≢ base_version s.timer.timer_id
    → Now v pooled s
gone_once v s c (pos, inl (q, r)) ne = absurd (ne (omega (arith, c.name)))
gone_once v s c (pos, inr (q, r)) ne = (pos, q, r)

-- A timer leaves the bucket or the heap without a run only when it was cancelled.
try_remove-IsGood :
    (v : ℕ) (s : State) → IsKept v s → Now v waiting s → waiting ≡ s.place → IsGood v (try_remove s)
unfolding try_remove try_delete
try_remove-IsGood v s c n e = elim (Bool-cases (s.timer.version == base_version s.timer.timer_id)) [
  | inl live ↦ rw live (IsGood-same v s waiting c n e)
  | inr gone ↦ rw gone (pooled-IsGood v s c (gone_once v s c n (ground arith)))
]

-- A waiting timer with the version of its name was neither run nor cancelled.
not_yet :
    (v : ℕ) (s : State)
    → IsKept v s
    → Now v waiting s
    → s.timer.version ≡ base_version s.timer.timer_id
    → (1 ≤ s.generation) × (times s s.generation ≡ 0)
not_yet v s c (pos, inl (q, r)) e = (pos, r)
not_yet v s c (pos, inr (q, r)) e = absurd (omega (arith, c.name))

-- The assertion of `run_and_delete` fails at any version.
no_two : (x : ℕ) → (x == add32 x 2) ≡ false
no_two x = ground arith

begin_run-IsGood : (v : ℕ) (s : State) → IsKept v s → Now v waiting s → IsGood v (begin_run s)
unfolding begin_run run_begin
begin_run-IsGood v s c n = elim (Bool-cases (s.timer.version == base_version s.timer.timer_id)) [
  | inl live ↦
      let (pos, none_yet) = not_yet v s c n (ground arith) in
      rw live (
        record {
          name = c.name;
          past = λ g x y. ground (arith, c.past g x y);
          future = λ g x. ground (arith, c.future g x);
          calls = c.calls;
        },
        (pos, omega (arith, c.name), ground (arith, none_yet)),
      )
  | inr gone ↦
      rw (gone, no_two s.timer.version)
        (
          record { name = c.name; past = c.past; future = c.future; calls = c.calls },
          gone_once v s c n (ground arith),
        )
]

step_at-IsGood :
    (v : ℕ) (p : Place) (a : Action) (s : State)
    → prompt_step a s ≡ true
    → IsKept v s
    → Now v p s
    → p ≡ s.place
    → IsGood v (step_at p a s)
unfolding step_at
step_at-IsGood v fresh (add_first func arg abstime) s u c n e =
    begin_add-IsGood v func arg abstime s c (λ g x y. absurd (omega (arith, n.0)))
      (λ k i g h. absurd (no_call s.checked k (i, g) n.1 h))
step_at-IsGood v fresh add_last s u c n e = IsGood-same v s fresh c n e
step_at-IsGood v fresh remove s u c n e = IsGood-same v s fresh c n e
step_at-IsGood v fresh start s u c n e = IsGood-same v s fresh c n e
step_at-IsGood v fresh end_run s u c n e = IsGood-same v s fresh c n e
step_at-IsGood v fresh give_back s u c n e = IsGood-same v s fresh c n e
step_at-IsGood v fresh (check timer_id) s u c n e = IsGood-same v s fresh c n e
step_at-IsGood v fresh (exchange k) s u c n e = IsGood-same v s fresh c n e
step_at-IsGood v pooled (add_first func arg abstime) s u c n e =
    begin_add-IsGood v func arg abstime s c (λ g x y. up_to_now v s c n.2 g x (omega arith))
      (λ k i g h. omega (arith, n.1))
step_at-IsGood v pooled add_last s u c n e = IsGood-same v s pooled c n e
step_at-IsGood v pooled remove s u c n e = IsGood-same v s pooled c n e
step_at-IsGood v pooled start s u c n e = IsGood-same v s pooled c n e
step_at-IsGood v pooled end_run s u c n e = IsGood-same v s pooled c n e
step_at-IsGood v pooled give_back s u c n e = IsGood-same v s pooled c n e
step_at-IsGood v pooled (check timer_id) s u c n e =
    try_check-IsGood v timer_id s pooled (λ _ m. m) c n e
step_at-IsGood v pooled (exchange k) s u c n e =
    exchange_call-IsGood v s (call_at s.checked k) u (IsGood-same v s pooled c n e)
      (λ i g h m. absurd (no_match v 2 k i g s (omega arith) (omega arith) c n.1 h m))
step_at-IsGood v adding (add_first func arg abstime) s u c n e = IsGood-same v s adding c n e
step_at-IsGood v adding add_last s u c n e = (
  record { name = c.name; past = c.past; future = c.future; calls = c.calls },
  (n.0, inl (c.name, n.1)),
)
step_at-IsGood v adding remove s u c n e = IsGood-same v s adding c n e
step_at-IsGood v adding start s u c n e = IsGood-same v s adding c n e
step_at-IsGood v adding end_run s u c n e = IsGood-same v s adding c n e
step_at-IsGood v adding give_back s u c n e = IsGood-same v s adding c n e
step_at-IsGood v adding (check timer_id) s u c n e = IsGood-same v s adding c n e
step_at-IsGood v adding (exchange k) s u c n e =
    exchange_call-IsGood v s (call_at s.checked k) u (IsGood-same v s adding c n e)
      (λ i g h m. absurd (no_match_adding v k i g s c n h m))
step_at-IsGood v waiting (add_first func arg abstime) s u c n e = IsGood-same v s waiting c n e
step_at-IsGood v waiting add_last s u c n e = IsGood-same v s waiting c n e
step_at-IsGood v waiting remove s u c n e = try_remove-IsGood v s c n e
step_at-IsGood v waiting start s u c n e = begin_run-IsGood v s c n
step_at-IsGood v waiting end_run s u c n e = IsGood-same v s waiting c n e
step_at-IsGood v waiting give_back s u c n e = IsGood-same v s waiting c n e
step_at-IsGood v waiting (check timer_id) s u c n e =
    try_check-IsGood v timer_id s waiting (λ _ m. m) c n e
step_at-IsGood v waiting (exchange k) s u c n e =
    exchange_call-IsGood v s (call_at s.checked k) u (IsGood-same v s waiting c n e)
      (λ i g h m. exchange_waiting-IsGood v i g s (c.calls k i g h) m c n e)
step_at-IsGood v running_func (add_first func arg abstime) s u c n e =
    IsGood-same v s running_func c n e
step_at-IsGood v running_func add_last s u c n e = IsGood-same v s running_func c n e
step_at-IsGood v running_func remove s u c n e = IsGood-same v s running_func c n e
step_at-IsGood v running_func start s u c n e = IsGood-same v s running_func c n e
step_at-IsGood v running_func end_run s u c n e = (
  record { name = c.name; past = c.past; future = c.future; calls = c.calls },
  (n.0, omega (arith, c.name), n.2),
)
step_at-IsGood v running_func give_back s u c n e = IsGood-same v s running_func c n e
step_at-IsGood v running_func (check timer_id) s u c n e =
    try_check-IsGood v timer_id s running_func (λ _ m. m) c n e
step_at-IsGood v running_func (exchange k) s u c n e =
    exchange_call-IsGood v s (call_at s.checked k) u (IsGood-same v s running_func c n e)
      (λ i g h m. absurd (no_match v 1 k i g s (omega arith) (omega arith) c n.1 h m))
step_at-IsGood v returned (add_first func arg abstime) s u c n e = IsGood-same v s returned c n e
step_at-IsGood v returned add_last s u c n e = IsGood-same v s returned c n e
step_at-IsGood v returned remove s u c n e = IsGood-same v s returned c n e
step_at-IsGood v returned start s u c n e = IsGood-same v s returned c n e
step_at-IsGood v returned end_run s u c n e = IsGood-same v s returned c n e
step_at-IsGood v returned give_back s u c n e = pooled-IsGood v s c n
step_at-IsGood v returned (check timer_id) s u c n e =
    try_check-IsGood v timer_id s returned (λ _ m. m) c n e
step_at-IsGood v returned (exchange k) s u c n e =
    exchange_call-IsGood v s (call_at s.checked k) u (IsGood-same v s returned c n e)
      (λ i g h m. absurd (no_match v 2 k i g s (omega arith) (omega arith) c n.1 h m))
step_at-IsGood v aborted (add_first func arg abstime) s u c n e = IsGood-same v s aborted c n e
step_at-IsGood v aborted add_last s u c n e = IsGood-same v s aborted c n e
step_at-IsGood v aborted remove s u c n e = IsGood-same v s aborted c n e
step_at-IsGood v aborted start s u c n e = IsGood-same v s aborted c n e
step_at-IsGood v aborted end_run s u c n e = IsGood-same v s aborted c n e
step_at-IsGood v aborted give_back s u c n e = IsGood-same v s aborted c n e
step_at-IsGood v aborted (check timer_id) s u c n e = IsGood-same v s aborted c n e
step_at-IsGood v aborted (exchange k) s u c n e = IsGood-same v s aborted c n e

pub run-IsGood :
    (v : ℕ) (actions : List Action) (s : State)
    → all_prompt actions s ≡ true
    → IsGood v s
    → IsGood v (run actions s)
unfolding run all_prompt
run-IsGood v [] s u good = good
run-IsGood v (a ∷ actions) s u (c, n) =
    run-IsGood v actions (step_at s.place a s) (ground (arith, u))
      (step_at-IsGood v s.place a s (ground (arith, u)) c n refl)

pub unused-IsGood : (t : Timer) → IsGood (base_version t.timer_id) (unused t)
unfolding base_version
unused-IsGood t = (
  record {
    name = omega arith;
    past = λ g x y. absurd (omega arith);
    future = λ g x. omega arith;
    calls = λ k i g h. cc;
  },
  (refl, refl),
)

-- Whatever the threads do, and in whatever order, as long as no call of `cancel_timer` is held up
-- while its timer is added again 2 ^ 30 times: a timer that was added, and whose place was
-- then used again, was run once or cancelled once, and never both.
run_or_cancelled :
    (t : Timer) (actions : List Action) (g : ℕ)
    → all_prompt actions (unused t) ≡ true
    → 1 ≤ g
    → g < (run actions (unused t)).generation
    → (run actions (unused t)).starts g + (run actions (unused t)).cancels g ≡ 1
run_or_cancelled t actions g u h k =
    (run-IsGood (base_version t.timer_id) actions (unused t) u (unused-IsGood t)).0.past g h k

at_most-Now :
    (v : ℕ) (p : Place) (s : State) → 1 ≤ s.generation → Now v p s → times s s.generation ≤ 1
at_most-Now v fresh s h n = absurd (omega (arith, n.0))
at_most-Now v adding s h n = omega (arith, n.1)
at_most-Now v waiting s h (pos, inl (q, r)) = omega arith
at_most-Now v waiting s h (pos, inr (q, r)) = omega arith
at_most-Now v running_func s h n = omega (arith, n.2)
at_most-Now v returned s h n = omega (arith, n.2)
at_most-Now v pooled s h n = omega (arith, n.2)
at_most-Now v aborted s h n = omega (arith, n.2)

at_most_once : (v g : ℕ) (s : State) → 1 ≤ g → IsGood v s → times s g ≤ 1
at_most_once v g s h (c, n) = elim (dec_lt g s.generation) [
  | yes p ↦ omega (arith, c.past g h p)
  | no p ↦ elim (dec_lt s.generation g) [
    | yes q ↦ omega (arith, c.future g q)
    | no q ↦
        (let e : g ≡ s.generation = omega arith in rw e (at_most-Now v s.place s (omega arith) n))
  ]
]

-- At every moment, as long as no call of `cancel_timer` is held up while its timer is added again
-- 2 ^ 30 times, each use of a timer was run at most once, cancelled at most once, and not both.
not_both :
    (t : Timer) (actions : List Action) (g : ℕ)
    → all_prompt actions (unused t) ≡ true
    → 1 ≤ g
    → (run actions (unused t)).starts g + (run actions (unused t)).cancels g ≤ 1
not_both t actions g u h =
    at_most_once (base_version t.timer_id) g (run actions (unused t)) h
      (run-IsGood (base_version t.timer_id) actions (unused t) u (unused-IsGood t))

-- As long as no call of `cancel_timer` is held up while its timer is added again 2 ^ 30 times, each
-- use of a timer that is over was run once or cancelled once and never both, and each use was so
-- at most once at any moment. The program may end before that in the assertion of `run_and_delete`.
pub starts-cancels :
    (t : Timer) (actions : List Action) (past any : ℕ)
    → all_prompt actions (unused t) ≡ true
    → 1 ≤ past
    → past < (run actions (unused t)).generation
    → 1 ≤ any
    → ((run actions (unused t)).starts past + (run actions (unused t)).cancels past ≡ 1)
      × ((run actions (unused t)).starts any + (run actions (unused t)).cancels any ≤ 1)
starts-cancels t actions past any u h k l =
    (run_or_cancelled t actions past u h k, not_both t actions any u l)
