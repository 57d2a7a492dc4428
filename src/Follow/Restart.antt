-- ===== src/Follow/Restart.antt =====
-- use-judgement.ts: what happens when the url changes while a request is out.
use codolympics.Prelude.{ℕ, ◌+◌, ◌≡◌, Bool, true, false, String, Option, none, arith}
use codolympics.Follow.Machine.{Follower, aborted, fired, ended, poll, settle, happen, restart}

module _ {T : Type 0} (signature : T → String) (finished : T → Bool) where
  -- The life cycle that a change of url begins while a request is out: `inFlight` is still set when
  -- the new cycle tries its first poll, so that poll is not made; the abort then comes in, and
  -- schedules nothing. The new url is not asked for, the job is unfinished, no timer is set and no
  -- request is out, and there is no timer to fire.
  pub restart_in_flight :
      (now : ℕ) (initial : Option T) (f : Follower T)
      → f.in_flight ≡ true
      → let f' = happen signature finished (restart now initial f) (ended aborted) in
        (f'.sent ≡ f.sent)
        × (f'.done ≡ false)
        × (f'.in_flight ≡ false)
        × (f'.timer ≡ none)
        × (f'.hidden ≡ f.hidden)
        × (happen signature finished f' fired ≡ f')
  unfolding happen restart poll settle
  restart_in_flight now initial f i = ground arith

  -- With no request out, the first poll of the new life cycle is made at once on a visible page.
  restart_idle :
      (now : ℕ) (initial : Option T) (f : Follower T)
      → f.in_flight ≡ false
      → f.hidden ≡ false
      → let f' = restart now initial f in (f'.sent ≡ f.sent + 1) × (f'.in_flight ≡ true)
  unfolding restart poll
  restart_idle now initial f i h = ground arith
