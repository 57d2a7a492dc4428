-- ===== src/Live/Gaps.antt =====
-- contest-provider.tsx: local state is never trusted after a gap.
use codolympics.Prelude.{ℕ, ◌+◌, ◌<◌, ◌≡◌, refl, true, Option, none, some, arith, ◌⊎◌, inl, inr}
use codolympics.Live.{Poll, ContestState, opened}
use codolympics.Live.Events.{Client, note_server_now}
use codolympics.Live.Heard.{note_server_now-heard}
use codolympics.Live.Polling.{
  Loop, answered, apply_all, read_state, take_events, catch_failure, is_gap, tick,
}

gap-is_gap :
    (poll : Poll) (l : Loop) → (poll.reset ≡ true) ⊎ (0 < l.failures) → is_gap poll l ≡ true
gap-is_gap poll l (inl e) = ground arith
gap-is_gap poll l (inr p) = ground arith

note_server_now-state :
    (now : ℕ) (o : Option ℕ) (c : Client) → (note_server_now now o c).state ≡ c.state
unfolding note_server_now
note_server_now-state now none c = refl
note_server_now-state now (some s) c = refl

read_state-state :
    (now : ℕ) (fresh : ContestState) (c : Client) → (read_state now fresh c).state ≡ some fresh
unfolding read_state
read_state-state now fresh c = note_server_now-state now _ (record c { state = some fresh })

abbrev noted : ℕ → Poll → Loop → Client
noted now poll l = note_server_now now (some poll.server_now) l.client

-- What a tick leaves behind when its re-read failed.
pub record Held (l l' : Loop) : Type 0 where
  pub cursor : l'.cursor ≡ l.cursor
  pub heard : l'.client.heard ≡ l.client.heard
  pub state : l'.client.state ≡ l.client.state
  pub failures : l'.failures ≡ l.failures + 1

tick-failed_reread :
    (now : ℕ) (poll : Poll) (l : Loop)
    → is_gap poll l ≡ true
    → tick l (answered now poll none) ≡ catch_failure (record l { client = noted now poll l })
unfolding tick
tick-failed_reread now poll l e = rw e

catch_failure-Held :
    (l : Loop) (c : Client)
    → c.state ≡ l.client.state
    → c.heard ≡ l.client.heard
    → Held l (catch_failure (record l { client = c }))
unfolding catch_failure
catch_failure-Held l c e h = ground arith

-- After a failed poll, or where the engine has pruned events, a tick whose re-read fails tells no
-- event, keeps the cursor and the state, and counts one more failure.
pub tick-Held :
    (now : ℕ) (poll : Poll) (l : Loop)
    → (poll.reset ≡ true) ⊎ (0 < l.failures)
    → Held l (tick l (answered now poll none))
tick-Held now poll l h = rw (tick-failed_reread now poll l (gap-is_gap poll l h)) (
    catch_failure-Held l (noted now poll l) (note_server_now-state now _ l.client)
      (note_server_now-heard now _ l.client))

-- After a failed poll, or where the engine has pruned events, a tick whose re-read succeeds applies
-- the poll's events to a client that holds the state just read, whatever it held before.
pub tick-reread :
    (now : ℕ) (poll : Poll) (fresh : ContestState) (l : Loop)
    → (poll.reset ≡ true) ⊎ (0 < l.failures)
    → (c : Client) × (c.state ≡ some fresh)
      × ((tick l (answered now poll (some fresh))).client ≡ apply_all now poll.events c)
      × ((tick l (answered now poll (some fresh))).failures ≡ 0)
unfolding tick take_events
tick-reread now poll fresh l h =
    let e = gap-is_gap poll l h in
    (
      record (read_state now fresh (noted now poll l)) { connection = opened },
      read_state-state now fresh (noted now poll l),
      rw e,
      rw e,
    )
