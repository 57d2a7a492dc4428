-- ===== src/Follow/Backoff.antt =====
-- use-judgement.ts: the interval between polls, `Math.min(MAX_MS, delay * GROWTH)` from FIRST_MS on.
use codolympics.Prelude.{
  ℕ, ◌*◌, ◌≤◌, ◌≡◌, refl, Bool, true, false, ◌||◌, String, List, [], ◌∷◌, Option, none, some, arith,
  ◌⊎◌, inl, inr, if_ind, is_some, str_eq,
}
use codolympics.Follow.Machine.{
  first_ms, max_ms, grow, is_gone, Follower, Outcome, refused, answered, threw, aborted, Happening,
  fired, ended, poked, visibility, poll, note_change, schedule, complain, settle, poke, happen,
  happens, restart,
}

-- The intervals that occur: 350, 525, 787.5, 1181.25, 1771.875 and 2000 ms.
data Interval : ℕ → Type 0 where
  first : Interval 2800
  second : Interval 4200
  third : Interval 6300
  fourth : Interval 9450
  fifth : Interval 14175
  last : Interval 16000

Interval-grow : {d : ℕ} → Interval d → Interval (grow d)
unfolding grow
Interval-grow first = second
Interval-grow second = third
Interval-grow third = fourth
Interval-grow fourth = fifth
Interval-grow fifth = last
Interval-grow last = last

-- Half as long again to the eighth of a millisecond, or the maximum.
abbrev pub IsExact : ℕ → Type 0
IsExact d = (grow d * 2 ≡ d * 3) ⊎ ((grow d ≡ max_ms) × (max_ms * 2 ≤ d * 3))

Interval-IsExact : {d : ℕ} → Interval d → IsExact d
unfolding grow
Interval-IsExact first = inl refl
Interval-IsExact second = inl refl
Interval-IsExact third = inl refl
Interval-IsExact fourth = inl refl
Interval-IsExact fifth = inr (refl, omega arith)
Interval-IsExact last = inr (refl, omega arith)

Interval-bounds : {d : ℕ} → Interval d → (first_ms ≤ d) × (d ≤ max_ms)
Interval-bounds first = omega arith
Interval-bounds second = omega arith
Interval-bounds third = omega arith
Interval-bounds fourth = omega arith
Interval-bounds fifth = omega arith
Interval-bounds last = omega arith

abbrev OnTime : Option ℕ → Type 0
OnTime none = Unit
OnTime (some d) = Interval d

-- The interval at hand, and the one that a timer is set to.
record Timed {T : Type 0} (f : Follower T) : Type 0 where
  delays : Interval f.delay
  waits : OnTime f.timer

module _ {T : Type 0} where
  poll-Timed : (f : Follower T) → Timed f → Timed (poll f)
  unfolding poll
  poll-Timed f t =
      if_ind Timed (f.done || f.in_flight || f.hidden) _ _ (λ _. t)
        (λ _. record { delays = t.delays; waits = t.waits })

  schedule-Timed : (f : Follower T) → Timed f → Timed (schedule f)
  unfolding schedule
  schedule-Timed f t =
      if_ind Timed f.done _ _ (λ _. t) (λ _. record { delays = t.delays; waits = t.delays })

  complain-Timed : (f : Follower T) → Timed f → Timed (complain f)
  unfolding complain
  complain-Timed f t = record { delays = Interval-grow t.delays; waits = t.waits }

  note_change-Timed :
      (now : ℕ) (sig : String) (f : Follower T) → Timed f → Timed (note_change now sig f)
  unfolding note_change
  note_change-Timed now sig f t =
      if_ind Timed (str_eq sig f.seen) _ _
        (λ _. record { delays = Interval-grow t.delays; waits = t.waits })
        (λ _. record { delays = first; waits = t.waits })

  poke-Timed : (f : Follower T) → Timed f → Timed (poke f)
  unfolding poke
  poke-Timed f t =
      if_ind Timed f.done _ _ (λ _. t)
        (λ _.
          poll-Timed (record f { delay = first_ms; timer = none })
            (record { delays = first; waits = tt }))

module _ {T : Type 0} (signature : T → String) (finished : T → Bool) where
  settle-Timed : (o : Outcome T) (f : Follower T) → Timed f → Timed (settle signature finished o f)
  unfolding settle
  settle-Timed (refused s) f t =
      if_ind Timed (is_gone s) _ _ (λ _. record { delays = t.delays; waits = tt })
        (λ _. schedule-Timed (complain f) (complain-Timed f t))
  settle-Timed (answered now v) f t =
      let f0 = record f { unreachable = false; value = some v; in_flight = false } in
      let g = note_change now (signature v) f0 in
      let u =
        note_change-Timed now (signature v) f0 (record { delays = t.delays; waits = t.waits }) in
      if_ind Timed (finished v) _ _ (λ _. record { delays = u.delays; waits = tt })
        (λ _. schedule-Timed g u)
  settle-Timed threw f t = schedule-Timed (complain f) (complain-Timed f t)
  settle-Timed aborted f t = record { delays = t.delays; waits = t.waits }

  happen-Timed :
      (f : Follower T) (h : Happening T) → Timed f → Timed (happen signature finished f h)
  unfolding happen
  happen-Timed f fired t =
      if_ind Timed (is_some f.timer) _ _
        (λ _. poll-Timed (record f { timer = none }) (record { delays = t.delays; waits = tt }))
        (λ _. t)
  happen-Timed f (ended o) t = if_ind Timed f.in_flight _ _ (λ _. settle-Timed o f t) (λ _. t)
  happen-Timed f poked t = poke-Timed f t
  happen-Timed f (visibility true) t = record { delays = t.delays; waits = tt }
  happen-Timed f (visibility false) t =
      poke-Timed (record f { hidden = false }) (record { delays = t.delays; waits = t.waits })

  happens-Timed :
      (f : Follower T) (hs : List (Happening T)) → Timed f → Timed (happens signature finished f hs)
  unfolding happens
  happens-Timed f [] t = t
  happens-Timed f (h ∷ rest) t =
      happens-Timed (happen signature finished f h) rest (happen-Timed f h t)

  -- Through a whole life cycle the interval lies between 350 ms and two seconds, and a step of the
  -- backoff from it is exact: half as long again, or the two seconds where that would pass them.
  pub restart-delay :
      (now : ℕ) (initial : Option T) (f : Follower T) (hs : List (Happening T))
      → let d = (happens signature finished (restart now initial f) hs).delay in
        (first_ms ≤ d) × (d ≤ max_ms) × IsExact d
  unfolding restart
  restart-delay now initial f hs =
      let t =
        happens-Timed (restart now initial f) hs
          (poll-Timed _ (record { delays = first; waits = tt })) in
      let b = Interval-bounds t.delays in (b.0, b.1, Interval-IsExact t.delays)
