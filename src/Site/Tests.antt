-- ===== src/Site/Tests.antt =====
-- Who is let in, what crosses to the engine, and the way back, on concrete data.
use codolympics.Prelude.{ℕ, ◌≡◌, false, String, List, [], ◌∷◌, Option, none, some, ◌⊎◌}
use codolympics.Site.Session.{AuthUser, SessionRow}
use codolympics.Site.Engine.{Headers, get, engine_headers, Request, Response, Outgoing}
use codolympics.Site.Access.{engine_sees, get-engine_headers}
use codolympics.Site.CameFrom.{codes, Place, came_from}
use codolympics.Site.Back.{IsOwn, came_from-IsOwn}

abbrev marker : AuthUser
marker = record {
  id = "u7";
  name = "Mira";
  username = none;
  role = some "evaluator";
  banned = some false;
}

abbrev target : String
target = "/grade"

abbrev users : List (String × Option String)
users = ("u1", some "participant") ∷ ("u7", some "evaluator") ∷ []

abbrev new_session : SessionRow
new_session = record { id = "s3"; user_id = "u1" }

abbrev old_session : SessionRow
old_session = record { id = "s1"; user_id = "u1" }

abbrev table : List SessionRow
table = old_session ∷ record { id = "s2"; user_id = "u7" } ∷ new_session ∷ []

abbrev from_browser : Headers
from_browser = ("x-engine-token", "forged") ∷ ("cookie", "session=1") ∷ []

get-engine_headers_example :
    get "x-engine-token" (engine_headers "secret" from_browser)
    ≡ engine_sees "x-engine-token" "secret" from_browser
get-engine_headers_example = get-engine_headers "x-engine-token" "secret" from_browser

abbrev asked : Request
asked = record {
  method = "GET";
  pathname = "/api/state";
  search = "";
  headers = from_browser;
  body = none;
}

abbrev engine : Outgoing → Option Response
engine out = some (record { status = 200; headers = ("set-cookie", "a=b") ∷ []; body = some "{}" })

abbrev all_participants : Place
all_participants = record { href = codes "/admin/participants"; label = "Participants" }

came_from-IsOwn_example :
    (came_from (some (codes "/admin/judge?page=2")) all_participants ≡ all_participants)
    ⊎ ((h : List ℕ) × (some (codes "/admin/judge?page=2") ≡ some h)
        × ((came_from (some (codes "/admin/judge?page=2")) all_participants).href ≡ h)
        × IsOwn h)
came_from-IsOwn_example = came_from-IsOwn (some (codes "/admin/judge?page=2")) all_participants
