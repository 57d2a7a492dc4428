-- ===== src/Live/Refresh.antt =====
-- contest-provider.tsx, `refresh`: at most one re-read of the whole state is in flight, and one more
-- follows it if anything asked meanwhile. `sent` counts the requests; each answer is an event.
use codolympics.Prelude.{
  ℕ, zero, suc, ◌+◌, ◌≡◌, ◌≢◌, refl, Bool, true, false, List, [], ◌∷◌, arith, if◌then◌else◌, ◌||◌,
  ap, ◌∙◌, ltb,
}

pub record Reading : Type 0 where
  pub reading : Bool
  pub again : Bool
  pub sent : ℕ

pub data Ask : Type 0 where
  called answered failed : Ask

unfoldable pub idle : Reading
idle = record { reading = false; again = false; sent = 0 }

-- `refresh()`: join the read in flight, or start one.
unfoldable pub call : Reading → Reading
call r =
    if r.reading
    then record r { again = true }
    else record r { reading = true; again = false; sent = r.sent + 1 }

-- The answer of `/api/state` arrives: once more round the loop, or done.
unfoldable pub answer : Reading → Reading
answer r =
    if r.again then record r { again = false; sent = r.sent + 1 } else record r { reading = false }

-- The request fails: the loop is left, and `finally` clears `reading`.
unfoldable fail : Reading → Reading
fail r = record r { reading = false }

-- An answer or a failure comes only to a request in flight.
unfoldable pub ask : Reading → Ask → Reading
unfolding call answer fail
ask r called = call r
ask r answered = if r.reading then answer r else r
ask r failed = if r.reading then fail r else r

unfoldable pub asks : Reading → List Ask → Reading
asks r [] = r
asks r (a ∷ rest) = asks (ask r a) rest

abbrev is_call : Ask → Bool
is_call called = true
is_call _ = false

-- Whether a call has come since the last request was sent, read off the requests alone.
abbrev pending_after : Reading → Bool → Ask → Bool
pending_after r pending a = if ltb r.sent (ask r a).sent then false else pending || is_call a

unfoldable pub owed : Reading → Bool → List Ask → Bool
unfolding ask
owed r pending [] = pending
owed r pending (a ∷ rest) = owed (ask r a) (pending_after r pending a) rest

abbrev pub NoFailure : List Ask → Type 0
NoFailure [] = Unit
NoFailure (failed ∷ rest) = ⊥
NoFailure (_ ∷ rest) = NoFailure rest

-- What is owed is remembered by `again`, and only while a read is in flight.
record Remembers (r : Reading) (pending : Bool) : Type 0 where
  noted : pending ≡ true → r.again ≡ true
  busy : r.again ≡ true → r.reading ≡ true

ask-Remembers :
    (r : Reading) (pending : Bool) (a : Ask)
    → a ≢ failed
    → Remembers r pending
    → Remembers (ask r a) (pending_after r pending a)
unfolding ask
ask-Remembers r pending called ne h = ground arith
ask-Remembers r pending answered ne h = ground arith
ask-Remembers r pending failed ne h = absurd (ne refl)

catches_up_from :
    (r : Reading) (pending : Bool) (l : List Ask)
    → Remembers r pending
    → NoFailure l
    → (asks r l).reading ≡ false
    → owed r pending l ≡ false
unfolding asks owed
catches_up_from r pending [] h n e = ground arith
catches_up_from r pending (called ∷ rest) h n e =
    catches_up_from (ask r called) _ rest (ask-Remembers r pending called (λ q. cc) h) n e
catches_up_from r pending (answered ∷ rest) h n e =
    catches_up_from (ask r answered) _ rest (ask-Remembers r pending answered (λ q. cc) h) n e
catches_up_from r pending (failed ∷ rest) h n e = absurd n

-- If no request fails, then whenever no read is in flight a request was sent at or after every call
-- of `refresh`: no call is answered by a state that was asked for before it.
pub refresh_catches_up :
    (l : List Ask) → NoFailure l → (asks idle l).reading ≡ false → owed idle false l ≡ false
unfolding idle
refresh_catches_up l n e =
    catches_up_from idle false l (record { noted = λ q. cc; busy = λ q. cc }) n e

abbrev burst : ℕ → List Ask → List Ask
burst zero rest = rest
burst (suc n) rest = called ∷ burst n rest

call-joined :
    (r : Reading)
    → r.reading ≡ true
    → ask r called ≡ record { reading = true; again = true; sent = r.sent }
unfolding ask
call-joined r h = ground arith

asks-burst :
    (n : ℕ) (r : Reading) (rest : List Ask)
    → r.reading ≡ true
    → asks r (burst (suc n) rest)
      ≡ asks (record { reading = true; again = true; sent = r.sent }) rest
unfolding asks
asks-burst zero r rest h = ap (λ q. asks q rest) (call-joined r h)
asks-burst (suc n) r rest h =
    ap (λ q. asks q (burst (suc n) rest)) (call-joined r h)
    ∙ asks-burst n (record { reading = true; again = true; sent = r.sent }) rest refl

-- While a read is in flight, `n + 1` further calls send nothing; its answer then sends exactly one
-- more request, and the answer of that one ends the reading.
burst_one_more :
    (n : ℕ) (r : Reading)
    → r.reading ≡ true
    → ((asks r (burst (suc n) [])).sent ≡ r.sent)
      × (asks r (burst (suc n) (answered ∷ []))
          ≡ record { reading = true; again = false; sent = r.sent + 1 })
      × (asks r (burst (suc n) (answered ∷ answered ∷ []))
          ≡ record { reading = false; again = false; sent = r.sent + 1 })
unfolding asks ask
burst_one_more n r h = (
  ap (λ q. q.sent) (asks-burst n r [] h),
  asks-burst n r (answered ∷ []) h,
  asks-burst n r (answered ∷ answered ∷ []) h,
)
