-- ===== src/Roster/Joining.antt =====
-- web/src/app/(app)/admin/participants/page.tsx: `NAME_RULE` and `CreateParticipantDialog`. `trim`, what
-- `\s` matches and `toLowerCase` of one character are arguments. A text is read by its code points.
use codolympics.Prelude.{
  ℕ, ◌+◌, ◌≡◌, ◌<◌, Bool, true, false, not, ◌&&◌, ◌||◌, String, List, [], ◌∷◌, Option, none, some,
  if◌then◌else◌, leb, ◌==◌, length, every, map, str_eq,
}
use codolympics.Site.CameFrom.{codes}
use codolympics.Widgets.Dialogs.{size}

unfoldable pub is_upper : ℕ → Bool
is_upper c = leb b'A' c && leb c b'Z'

-- The characters of `NAME_RULE` but the space and the capitals.
unfoldable pub is_plain : ℕ → Bool
is_plain c =
    (leb b'a' c && leb c b'z')
    || ((leb b'0' c && leb c b'9') || (c == b'_' || (c == b'.' || c == b'-')))

-- `[A-Za-z0-9 _.-]`.
unfoldable pub is_name_char : ℕ → Bool
unfolding is_upper is_plain
is_name_char c = is_plain c || (is_upper c || c == b' ')

-- `NAME_RULE.test(name)`.
unfoldable pub fits_rule : String → Bool
unfolding is_name_char
fits_rule name =
    let l = codes name in leb 2 (length l) && (leb (length l) 32 && every is_name_char l)

pub record Words : Type 0 where
  pub trim : String → String
  pub is_space : ℕ → Bool
  pub lower : ℕ → ℕ

-- What `\s` and `toLowerCase` are documented to do with the characters of the rule.
pub record IsEcmaScript (js : Words) : Type 0 where
  pub space_only : (c : ℕ) → is_name_char c ≡ true → js.is_space c ≡ (c == b' ')
  pub lower_ascii : (c : ℕ) → c < 128 → js.lower c ≡ (if is_upper c then c + 32 else c)

-- `.replace(/\s+/g, "_")`; `inside` is whether the character before was a space.
unfoldable pub collapse : (is_space : ℕ → Bool) → (inside : Bool) → List ℕ → List ℕ
collapse sp inside [] = []
collapse sp inside (c ∷ l) =
    let rest = collapse sp (sp c) l in
    if sp c then (if inside then rest else b'_' ∷ rest) else c ∷ rest

pub record Form : Type 0 where
  pub username : String
  pub password : String
  pub language : String

-- The body of the request, less its reason, which is made of the name.
pub record Body : Type 0 where
  pub username : String
  pub password : String
  pub preferred_language : String

-- `sent` has the latest body first.
pub record Dialog : Type 0 where
  pub f : Form
  pub error : Option String
  pub busy : Bool
  pub sent : List Body

-- The fields, the suggested password, the button, Enter in the form, and the ends of the request.
pub data Event : Type 0 where
  named passworded chose suggested : String → Event
  pressed submitted done : Event
  refused : String → Event

-- `late`, for the warning; without a state the phase is `registration`.
unfoldable late : Option String → Bool
late none = false
late (some phase) = not (str_eq phase "registration")

module _ (js : Words) where
  unfoldable pub sign_in : String → List ℕ
  unfolding collapse
  sign_in name = map js.lower (collapse js.is_space false (codes name))

  unfoldable name_bad : Dialog → Bool
  unfolding fits_rule
  name_bad d = let name = js.trim d.f.username in not (str_eq name "") && not (fits_rule name)

  unfoldable pub ready : Dialog → Bool
  unfolding fits_rule size
  ready d = fits_rule (js.trim d.f.username) && leb 8 (size d.f.password)

  unfoldable pub body : Dialog → Body
  body d = record {
    username = js.trim d.f.username;
    password = d.f.password;
    preferred_language = d.f.language;
  }

  unfoldable pub create : Dialog → Dialog
  unfolding body
  create d = record d { busy = true; error = none; sent = body d ∷ d.sent }

  unfoldable pub step : Dialog → Event → Dialog
  unfolding ready create
  step d (named t) = record d { f = record d.f { username = t } }
  step d (passworded t) = record d { f = record d.f { password = t } }
  step d (chose t) = record d { f = record d.f { language = t } }
  step d (suggested t) = record d { f = record d.f { password = t } }
  step d pressed = if ready d && not d.busy then create d else d
  step d submitted = if ready d && not d.busy then create d else d
  step d done = record d { busy = false }
  step d (refused why) = record d { error = some why; busy = false }

  unfoldable pub steps : Dialog → List Event → Dialog
  unfolding step
  steps d [] = d
  steps d (e ∷ es) = steps (step d e) es
