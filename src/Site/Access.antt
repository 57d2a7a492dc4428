-- ===== src/Site/Access.antt =====
-- auth.ts: the one-session rule. engine.ts: what crosses to the engine.
use codolympics.Prelude.{
  ◌≡◌, ◌≢◌, ◌↔◌, refl, ap, ◌∙◌, Bool, true, false, not, ◌&&◌, String, List, [], ◌∷◌, Option, none,
  some, arith, if◌then◌else◌, str_eq, includes, In, In-keep, keep-In, Bool-cases, Option-cases, inl,
  inr, ◌⊎◌, str_eq_true, str_eq_false, subst,
}
use text.Mathlib.TextEquality.{eq_iff}
use codolympics.Site.Session.{SessionRow, role_of, is_role, after_create}
use codolympics.Site.Engine.{
  Headers, get, put, copy_one, copy_all, engine_headers, forwarded_request_headers,
  forwarded_response_headers, Request, Response, Outgoing, outgoing, forward, returned, unavailable,
}

abbrev is_other : SessionRow → SessionRow → Bool
is_other s r = not (str_eq r.user_id s.user_id && not (str_eq r.id s.id))

is_other_iff :
    (s r : SessionRow) → (is_other s r ≡ true) ↔ ((r.user_id ≢ s.user_id) ⊎ (r.id ≡ s.id))
is_other_iff s r = ground (arith, eq_iff r.user_id s.user_id, eq_iff r.id s.id)

-- After a participant signs in, the sessions left are exactly the new one and those of other users:
-- every older session of the same participant is ended, and nobody else's.
pub after_create-participant :
    (users : List (String × Option String)) (s : SessionRow) (rows : List SessionRow)
    (r : SessionRow)
    → role_of users s.user_id ≡ some "participant"
    → In r (after_create users s rows) ↔ (In r rows × ((r.user_id ≢ s.user_id) ⊎ (r.id ≡ s.id)))
unfolding after_create
after_create-participant users s rows r h = rw h (
  (λ m. let (k, q) = keep-In (is_other s) r rows m in (k, (is_other_iff s r).0 q)),
  λ k. In-keep (is_other s) r rows k.0 ((is_other_iff s r).1 k.1),
)

is_role-false : (o : Option String) → o ≢ some "participant" → is_role "participant" o ≡ false
is_role-false none h = refl
is_role-false (some s) h = str_eq_false s "participant" (λ e. h (ap some e))

-- The sign-in of anyone who is not a participant ends no session.
after_create-staff :
    (users : List (String × Option String)) (s : SessionRow) (rows : List SessionRow)
    → role_of users s.user_id ≢ some "participant"
    → after_create users s rows ≡ rows
unfolding after_create
after_create-staff users s rows h = rw (is_role-false (role_of users s.user_id) h)

get-put :
    (name k v : String) (l : Headers)
    → get name (put k v l) ≡ (if str_eq k name then some v else get name l)
unfolding get put
get-put name k v [] = refl
get-put name k v ((j, w) ∷ rest) =
    ground (arith, eq_iff j k, eq_iff k name, eq_iff j name, get-put name k v rest)

-- What a copied value leaves: an absent or empty one is not copied.
abbrev pub present : Option String → Option String
present none = none
present (some v) = if str_eq v "" then none else some v

abbrev or_old : Option String → Option String → Option String
or_old none old = old
or_old (some v) old = some v

get-copy_one :
    (name k : String) (value : Option String) (l : Headers)
    → get name (copy_one value k l)
      ≡ (if str_eq k name then or_old (present value) (get name l) else get name l)
unfolding copy_one
get-copy_one name k none l = ground arith
get-copy_one name k (some v) l = ground (arith, get-put name k v l)

get-copy_all :
    (name : String) (names : List String) (from into : Headers)
    → get name (copy_all names from into) ≡ (
        if includes names name
        then or_old (present (get name from)) (get name into)
        else get name into)
unfolding copy_all
get-copy_all name [] from into = refl
get-copy_all name (k ∷ rest) from into = ground (
  arith,
  get-copy_all name rest from (copy_one (get k from) k into),
  get-copy_one name k (get k from) into,
  eq_iff k name,
)

or_old-none : (o : Option String) → or_old o none ≡ o
or_old-none none = refl
or_old-none (some v) = refl

abbrev own_token : String → Headers
own_token token = ("x-engine-token", token) ∷ []

-- What the engine must see under a name.
abbrev pub engine_sees : String → String → Headers → Option String
engine_sees name token from =
    if str_eq "x-engine-token" name
    then some token
    else if includes forwarded_request_headers name
    then present (get name from)
    else none

base_header :
    (name token : String) (from : Headers)
    → (if includes forwarded_request_headers name
        then or_old (present (get name from)) (get name (own_token token))
        else get name (own_token token))
      ≡ engine_sees name token from
unfolding get
base_header name token from = elim (Bool-cases (str_eq "x-engine-token" name)) [
  | inl e ↦
      subst
        (λ n.
          (if includes forwarded_request_headers n
            then or_old (present (get n from)) (get n (own_token token))
            else get n (own_token token))
          ≡ engine_sees n token from)
        (str_eq_true "x-engine-token" name e) refl
  | inr e ↦ rw (e, or_old-none (present (get name from)))
]

-- Whatever headers the browser sends, the engine sees the service's own token, the caller's non-empty
-- cookie, content type and accept headers, and no other header: a token of the caller's never passes.
pub get-engine_headers :
    (name token : String) (from : Headers)
    → get name (engine_headers token from) ≡ engine_sees name token from
unfolding engine_headers
get-engine_headers name token from =
    get-copy_all name forwarded_request_headers from (own_token token) ∙ base_header name token from

response_header :
    (name : String) (from : Headers)
    → (if includes forwarded_response_headers name
        then or_old (present (get name from)) (get name [])
        else get name [])
      ≡ (if includes forwarded_response_headers name then present (get name from) else none)
unfolding get
response_header name from = rw (or_old-none (present (get name from)))

-- The answer handed back carries the engine's status and body, and of its headers only a non-empty
-- content type, content disposition or cache control; if the engine does not answer, a 503.
pub forward_lem :
    (url token : String) (exchange : Outgoing → Option Response) (req : Request) (name : String)
    → ((exchange (outgoing url token req) ≡ none)
        × (forward url token exchange req ≡ unavailable)
        × (unavailable.status ≡ 503))
      ⊎ ((res : Response) × (exchange (outgoing url token req) ≡ some res)
          × ((forward url token exchange req).status ≡ res.status)
          × ((forward url token exchange req).body ≡ res.body)
          × (get name (forward url token exchange req).headers ≡ (
              if includes forwarded_response_headers name
              then present (get name res.headers)
              else none)))
unfolding forward returned
forward_lem url token exchange req name = elim (Option-cases (exchange (outgoing url token req))) [
  | inl e ↦ inl (e, rw e, unfold unavailable in refl)
  | inr (res, e) ↦ inr (
    res,
    e,
    rw e,
    rw e,
    rw e (
        get-copy_all name forwarded_response_headers res.headers []
        ∙ response_header name res.headers),
  )
]
