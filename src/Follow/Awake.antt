-- ===== src/Follow/Awake.antt =====
-- use-judgement.ts: within one life cycle the loop never falls asleep on an unfinished job, sends one
-- request at a time, and stops for good on a terminal state.
use codolympics.Prelude.{
  Bool-cases, inl, inr, ℕ, ◌+◌, ◌≡◌, refl, Bool, true, false, String, List, [], ◌∷◌, Option, none,
  arith, ◌⊎◌, ◌≢◌, ◌∙◌, ap, if_ind, is_some, All,
}
use codolympics.Follow.Machine.{
  first_ms, Follower, Outcome, refused, answered, threw, aborted, Happening, fired, ended, poked,
  visibility, poll, note_change, schedule, complain, settle, poke, happen, happens, restart,
}

-- An unfinished job on a visible page has a request out or a poll scheduled.
abbrev pub IsAwake : {T : Type 0} → Follower T → Type 0
IsAwake f = f.hidden ≡ false → f.done ≡ false → (f.in_flight ≡ true) ⊎ (f.timer ≢ none)

-- A finished job has neither.
pub record IsQuiet {T : Type 0} (f : Follower T) : Type 0 where
  no_timer : f.done ≡ true → f.timer ≡ none
  no_request : f.done ≡ true → f.in_flight ≡ false

module _ {T : Type 0} where
  -- Only a url change or an unmount aborts.
  abbrev pub NotAborted : List (Happening T) → Type 0
  NotAborted hs = All (λ h. h ≢ ended aborted) hs

  poll-IsAwake : (f : Follower T) → IsAwake (poll f)
  unfolding poll
  poll-IsAwake f = ground arith

  poll-IsQuiet : (f : Follower T) → IsQuiet f → IsQuiet (poll f)
  unfolding poll
  poll-IsQuiet f q = ground arith

  schedule-IsAwake : (f : Follower T) → IsAwake (schedule f)
  unfolding schedule
  schedule-IsAwake f = ground arith

  schedule-IsQuiet : (f : Follower T) → f.in_flight ≡ false → f.done ≡ false → IsQuiet (schedule f)
  unfolding schedule
  schedule-IsQuiet f i d = ground arith

  poke-IsAwake : (f : Follower T) → IsAwake (poke f)
  unfolding poke
  poke-IsAwake f = ground (arith, poll-IsAwake (record f { delay = first_ms; timer = none }))

  poke-IsQuiet : (f : Follower T) → IsQuiet f → IsQuiet (poke f)
  unfolding poke poll
  poke-IsQuiet f q = ground arith

module _ {T : Type 0} (signature : T → String) (finished : T → Bool) where
  settle-IsAwake :
      (o : Outcome T) (f : Follower T) → o ≢ aborted → IsAwake (settle signature finished o f)
  unfolding settle schedule
  settle-IsAwake (refused status) f ne = ground arith
  settle-IsAwake (answered now next) f ne = ground arith
  settle-IsAwake threw f ne = ground arith
  settle-IsAwake aborted f ne = absurd (ne refl)

  happen-IsAwake :
      (f : Follower T) (h : Happening T)
      → h ≢ ended aborted
      → IsAwake f
      → IsAwake (happen signature finished f h)
  unfolding happen
  happen-IsAwake f fired ne a =
      if_ind IsAwake (is_some f.timer) _ _ (λ _. poll-IsAwake (record f { timer = none })) (λ _. a)
  happen-IsAwake f (ended o) ne a =
      if_ind IsAwake f.in_flight _ _ (λ _. settle-IsAwake o f (λ q. ne (ap ended q))) (λ _. a)
  happen-IsAwake f poked ne a = poke-IsAwake f
  happen-IsAwake f (visibility true) ne a = λ v. cc
  happen-IsAwake f (visibility false) ne a = poke-IsAwake _

  settle-IsQuiet :
      (o : Outcome T) (f : Follower T)
      → f.in_flight ≡ true
      → IsQuiet f
      → IsQuiet (settle signature finished o f)
  unfolding settle schedule note_change complain
  settle-IsQuiet (refused status) f i q = ground arith
  settle-IsQuiet (answered now next) f i q = ground arith
  settle-IsQuiet threw f i q = ground arith
  settle-IsQuiet aborted f i q = ground arith

  happen-IsQuiet :
      (f : Follower T) (h : Happening T) → IsQuiet f → IsQuiet (happen signature finished f h)
  unfolding happen
  happen-IsQuiet f fired q =
      if_ind IsQuiet (is_some f.timer) _ _
        (λ _.
          poll-IsQuiet (record f { timer = none })
            (record { no_timer = λ _. refl; no_request = q.no_request }))
        (λ _. q)
  happen-IsQuiet f (ended o) q =
      if_ind IsQuiet f.in_flight _ _ (λ e. settle-IsQuiet o f e q) (λ _. q)
  happen-IsQuiet f poked q = poke-IsQuiet f q
  happen-IsQuiet f (visibility true) q = ground arith
  happen-IsQuiet f (visibility false) q =
      poke-IsQuiet (record f { hidden = false })
        (record { no_timer = q.no_timer; no_request = q.no_request })

  happens-IsAwake :
      (f : Follower T) (hs : List (Happening T))
      → NotAborted hs
      → IsAwake f
      → IsAwake (happens signature finished f hs)
  unfolding happens
  happens-IsAwake f [] n a = a
  happens-IsAwake f (h ∷ rest) (ne, n) a =
      happens-IsAwake (happen signature finished f h) rest n (happen-IsAwake f h ne a)

  happens-IsQuiet :
      (f : Follower T) (hs : List (Happening T))
      → IsQuiet f
      → IsQuiet (happens signature finished f hs)
  unfolding happens
  happens-IsQuiet f [] q = q
  happens-IsQuiet f (h ∷ rest) q =
      happens-IsQuiet (happen signature finished f h) rest (happen-IsQuiet f h q)

  restart-IsAwake :
      (now : ℕ) (initial : Option T) (f : Follower T) (hs : List (Happening T))
      → f.in_flight ≡ false
      → NotAborted hs
      → IsAwake (happens signature finished (restart now initial f) hs)
        × IsQuiet (happens signature finished (restart now initial f) hs)
  unfolding restart
  restart-IsAwake now initial f hs i n = (
    happens-IsAwake (restart now initial f) hs n (poll-IsAwake _),
    happens-IsQuiet (restart now initial f) hs (poll-IsQuiet _ (ground arith)),
  )

  -- A life cycle that begins with no request out never falls asleep: until its url changes, the job is
  -- either finished, with no timer set and no request out, or unfinished on a hidden page, or else a
  -- request is out or a poll is scheduled.
  pub restart_awake :
      (now : ℕ) (initial : Option T) (f : Follower T) (hs : List (Happening T))
      → f.in_flight ≡ false
      → NotAborted hs
      → let g = happens signature finished (restart now initial f) hs in
        ((g.done ≡ true) × (g.timer ≡ none) × (g.in_flight ≡ false))
        ⊎ ((g.done ≡ false) × ((g.hidden ≡ true) ⊎ ((g.in_flight ≡ true) ⊎ (g.timer ≢ none))))
  restart_awake now initial f hs i n =
      let (a, q) = restart-IsAwake now initial f hs i n in
      let g = happens signature finished (restart now initial f) hs in
      elim (Bool-cases g.done) [
        | inl d ↦ inl (d, q.no_timer d, q.no_request d)
        | inr d ↦ elim (Bool-cases g.hidden) [
          | inl h ↦ inr (d, inl h)
          | inr h ↦ inr (d, inr (a h d))
        ]
      ]

  happen-done :
      (f : Follower T) (h : Happening T)
      → f.done ≡ true
      → IsQuiet f
      → ((happen signature finished f h).done ≡ true)
        × ((happen signature finished f h).sent ≡ f.sent)
        × ((happen signature finished f h).value ≡ f.value)
  unfolding happen poke
  happen-done f fired d q = ground (arith, q.no_timer d)
  happen-done f (ended o) d q = ground (arith, q.no_request d)
  happen-done f poked d q = ground arith
  happen-done f (visibility true) d q = ground arith
  happen-done f (visibility false) d q = ground arith

  happens-quiet :
      (f : Follower T) (hs : List (Happening T))
      → f.done ≡ true
      → IsQuiet f
      → ((happens signature finished f hs).done ≡ true)
        × ((happens signature finished f hs).sent ≡ f.sent)
        × ((happens signature finished f hs).value ≡ f.value)
  unfolding happens
  happens-quiet f [] d q = (d, refl, refl)
  happens-quiet f (h ∷ rest) d q =
      let (d', s, v) = happen-done f h d q in
      let (d'', s', v') =
        happens-quiet (happen signature finished f h) rest d' (happen-IsQuiet f h q) in
      (d'', s' ∙ s, v' ∙ v)

  -- Once the job is finished or gone, with no timer set and no request out, nothing wakes the loop: no
  -- request is sent and the value shown stays, whatever timers, pokes, answers and tab switches follow.
  pub happens-done :
      (f : Follower T) (hs : List (Happening T))
      → f.done ≡ true
      → f.timer ≡ none
      → f.in_flight ≡ false
      → ((happens signature finished f hs).done ≡ true)
        × ((happens signature finished f hs).sent ≡ f.sent)
        × ((happens signature finished f hs).value ≡ f.value)
  happens-done f hs d t i = happens-quiet f hs d (record { no_timer = λ _. t; no_request = λ _. i })

  -- A request is sent only where none is out, and then exactly one is: so one at a time, and never
  -- for a finished job or on a hidden page.
  pub happen-sent :
      (f : Follower T) (h : Happening T)
      → let f' = happen signature finished f h in
        (f'.sent ≡ f.sent)
        ⊎ ((f'.sent ≡ f.sent + 1)
            × (f.in_flight ≡ false)
            × (f'.in_flight ≡ true)
            × (f'.done ≡ false)
            × (f'.hidden ≡ false))
  unfolding happen poke poll settle schedule note_change complain
  happen-sent f fired = ground arith
  happen-sent f (ended (refused s)) = ground arith
  happen-sent f (ended (answered now v)) = ground arith
  happen-sent f (ended threw) = ground arith
  happen-sent f (ended aborted) = ground arith
  happen-sent f poked = ground arith
  happen-sent f (visibility true) = ground arith
  happen-sent f (visibility false) = ground arith
