-- ===== src/Site/Session.antt =====
-- web/src/lib/session.ts, the session hook of web/src/lib/auth.ts and web/src/app/page.tsx. Better Auth
-- is not under src/: its session is an argument, and the tables that the hook reads and writes are
-- lists.
use codolympics.Prelude.{
  Bool, true, false, not, ◌&&◌, String, List, [], ◌∷◌, Option, none, some, if◌then◌else◌, str_eq,
  includes, keep, or_else,
}

pub record Viewer : Type 0 where
  pub id : String
  pub name : String
  pub username : String
  pub role : String

-- `session.user`.
pub record AuthUser : Type 0 where
  pub id : String
  pub name : String
  pub username : Option String
  pub role : Option String
  pub banned : Option Bool

abbrev is_banned : Option Bool → Bool
is_banned none = false
is_banned (some b) = b

unfoldable pub current : Option AuthUser → Option Viewer
current none = none
current (some u) =
    if is_banned u.banned
    then none
    else some (record {
      id = u.id;
      name = u.name;
      username = or_else u.username u.name;
      role = or_else u.role "participant";
    })

unfoldable pub home_for : String → String
home_for role =
    if str_eq role "admin"
    then "/admin"
    else if str_eq role "evaluator"
    then "/grade"
    else "/dashboard"

-- A page is shown to a viewer, or the request is redirected.
pub data Gate : Type 0 where
  shown : Viewer → Gate
  redirected : String → Gate

abbrev pub admits : List String → String → Bool
admits [] role = true
admits (r ∷ rest) role = includes (r ∷ rest) role

unfoldable pub require_viewer : List String → Option AuthUser → Gate
unfolding current home_for
require_viewer roles session = elim (current session) [
  | none ↦ redirected "/login"
  | some v ↦ if admits roles v.role then shown v else redirected (home_for v.role)
]

-- `AppLayout`, which every page under (app) is in: anyone who is signed in.
unfoldable pub app_layout : Option AuthUser → Gate
unfolding require_viewer
app_layout session = require_viewer [] session

-- What comes of a request for an address: the sign-in form, a page that is shown, or another redirect.
pub data Landing : Type 0 where
  sign_in_form not_found : Landing
  page : Viewer → Landing
  sent_on : String → Landing

-- The pages under (app) to which a sign-in leads.
abbrev pub home_pages : List String
home_pages = "/admin" ∷ "/grade" ∷ "/dashboard" ∷ []

abbrev pub landing : Gate → Landing
landing (shown v) = page v
landing (redirected target) = sent_on target

unfoldable pub visit : String → Option AuthUser → Landing
unfolding app_layout
visit path session =
    if str_eq path "/login"
    then sign_in_form
    else if includes home_pages path
    then landing (app_layout session)
    else not_found

-- `Root`: the address of the site itself.
unfoldable root : Option AuthUser → String
unfolding current home_for
root session = elim (current session) [ none ↦ "/login" | some v ↦ home_for v.role ]

pub record SessionRow : Type 0 where
  pub id : String
  pub user_id : String

-- `select role from user where id = …`.
unfoldable pub role_of : List (String × Option String) → String → Option String
role_of [] user = none
role_of ((id, role) ∷ rest) user = if str_eq id user then role else role_of rest user

abbrev pub is_role : String → Option String → Bool
is_role r none = false
is_role r (some s) = str_eq s r

-- `databaseHooks.session.create.after`, run once the session's row is in the table.
unfoldable pub after_create :
    List (String × Option String) → SessionRow → List SessionRow → List SessionRow
unfolding role_of
after_create users session rows =
    if is_role "participant" (role_of users session.user_id)
    then keep
        (λ (r : SessionRow). not (str_eq r.user_id session.user_id && not (str_eq r.id session.id)))
        rows
    else rows
