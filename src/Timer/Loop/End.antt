-- ===== src/Timer/Loop/End.antt =====
-- The timer thread of src/timer.cpp from its constructor to its end: no timer is lost.
use p_base.Base.{ℕ, ◌+◌, ◌≡◌, List, [], ◌∷◌, Bool, Option, some}
use p_base.Timer.{Timer}
use p_base.Timer.Heap.{count}
use p_base.Timer.Loop.{Event, Inputs}
use p_base.Timer.Loop.Adding.{count_calls}
use p_base.Timer.Loop.Turns.{timers_of, IsSteady}

abbrev pub count_inputs : (Timer → Bool) → List Inputs → ℕ
count_inputs p [] = 0
count_inputs p (i ∷ is) = count_calls p i.before + count_calls p i.after + count_inputs p is

-- No timer is cancelled between the check and the exchange of a turn, in any round.
abbrev pub AreSteady : List Inputs → Type 0
AreSteady [] = Unit
AreSteady (i ∷ is) = IsSteady i.turns × AreSteady is

-- The thread ends without a failed assertion, with as many events as there are timers to take.
abbrev Takes : Option (List Event) → ((Timer → Bool) → ℕ) → Type 0
Takes res total =
    (events : List Event) × (res ≡ some events)
    × ((p : Timer → Bool) → count p (timers_of events) ≡ total p)
