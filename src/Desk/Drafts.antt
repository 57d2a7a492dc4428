-- ===== src/Desk/Drafts.antt =====
-- web/src/app/(app)/question/[id]/page.tsx, `WorkspacePage`: the code in the editor, what was written in
-- each language, the copies in this browser and those sent to the server. The timer that is set runs out
-- after 1500 ms unless it is cleared. `Date.parse` has made a number of a draft's time; the name of the
-- question, which is the same in every key, is left out of the keys.
use codolympics.Prelude.{
  ℕ, Bool, true, String, List, [], ◌∷◌, ◌++◌, Option, none, some, if◌then◌else◌, ltb, or_else,
  str_eq,
}

-- A map by texts: an object whose keys are assigned.
abbrev pub Map : Type 0 → Type 0
Map A = List (String × A)

unfoldable pub lookup : {A : Type 0} → Map A → String → Option A
lookup [] k = none
lookup ((n, v) ∷ rest) k = if str_eq n k then some v else lookup rest k

unfoldable pub assign : {A : Type 0} → String → A → Map A → Map A
assign k v [] = (k, v) ∷ []
assign k v ((n, w) ∷ rest) =
    let later = assign k v rest in if str_eq n k then (k, v) ∷ rest else (n, w) ∷ later

pub record Draft : Type 0 where
  pub language : String
  pub source : String
  pub updated_at : ℕ

-- What `localStorage` holds of a language.
pub record Local : Type 0 where
  pub source : String
  pub written_at : ℕ

pub data Saved : Type 0 where
  saved saving failed idle : Saved

abbrev templates : Map String
templates =
    (
      "cpp",
      "#include <bits/stdc++.h>\nusing namespace std;\n\nint main() {\n    ios::sync_with_stdio(false);\n    cin.tie(nullptr);\n    \n    return 0;\n}\n",
    )
    ∷ ("c", "#include <stdio.h>\n\nint main(void) {\n    \n    return 0;\n}\n")
    ∷ ("python", "import sys\n\ndef main():\n    data = sys.stdin.read().split()\n    \n\nmain()\n")
    ∷ ("pypy", "import sys\n\ndef main():\n    data = sys.stdin.read().split()\n    \n\nmain()\n")
    ∷ (
      "java",
      "import java.util.*;\nimport java.io.*;\n\npublic class Main {\n    public static void main(String[] args) throws IOException {\n        \n    }\n}\n",
    )
    ∷ ("javascript", "const lines = require('fs').readFileSync(0, 'utf8').split('\\n');\n\n")
    ∷ []

-- `TEMPLATE`: a template for some of the languages.
unfoldable pub template : String → Option String
unfolding lookup
template l = lookup templates l

pub record Desk : Type 0 where
  pub language : String
  pub source : String
  pub code : Map String
  pub browser : Map Local
  pub timer : Option (String × String)
  pub sent : List (String × String)
  pub status : Saved
  pub loaded_draft : Bool

-- The server's copy of a draft, unless this browser kept a newer one.
unfoldable pub newer : Map Local → Draft → String
unfolding lookup
newer browser d = elim (lookup browser d.language) [
  | none ↦ d.source
  | some kept ↦ if ltb d.updated_at kept.written_at then kept.source else d.source
]

unfoldable pub gather : Map Local → List Draft → Map String → Map String
unfolding newer assign
gather browser [] code = code
gather browser (d ∷ rest) code = gather browser rest (assign d.language (newer browser d) code)

abbrev first_language : List Draft → String → String
first_language [] preferred = preferred
first_language (d ∷ rest) preferred = d.language

-- `load()` of the question with its drafts: they are read once.
unfoldable pub load : (preferred : String) → List Draft → Desk → Desk
unfolding gather template lookup
load preferred drafts s =
    let l = first_language drafts preferred in
    let code = gather s.browser drafts s.code in
    if s.loaded_draft then s else record s {
      loaded_draft = true;
      code = code;
      language = l;
      source = or_else (lookup code l) (or_else (template l) (or_else (template "cpp") ""));
    }

-- `onChange(next)`: the change takes the place of one that waits to be sent.
unfoldable pub on_change : String → (at : ℕ) → Desk → Desk
unfolding assign
on_change next at s = record s {
  source = next;
  code = assign s.language next s.code;
  browser = assign s.language (record { source = next; written_at = at }) s.browser;
  status = saving;
  timer = some (s.language, next);
}

-- Another language is chosen.
unfoldable pub switch : String → Desk → Desk
unfolding assign lookup template
switch v s =
    let code = assign s.language s.source s.code in
    let next = or_else (lookup code v) (or_else (template v) "") in
    record s { code = code; language = v; source = next; sent = s.sent ++ (v, next) ∷ [] }

-- The timer runs out.
unfoldable pub fire : Desk → Desk
fire s = elim s.timer [
  | none ↦ s
  | some draft ↦ record s { timer = none; sent = s.sent ++ draft ∷ [] }
]

pub data Event : Type 0 where
  loaded : List Draft → Event
  typed : String → (at : ℕ) → Event
  switched : String → Event
  reset : (at : ℕ) → Event
  elapsed accepted rejected : Event

unfoldable pub step : (preferred : String) → Desk → Event → Desk
unfolding load on_change switch fire template
step preferred s (loaded drafts) = load preferred drafts s
step preferred s (typed next at) = on_change next at s
step preferred s (switched v) = switch v s
step preferred s (reset at) = on_change (or_else (template s.language) "") at s
step preferred s elapsed = fire s
step preferred s accepted = record s { status = saved }
step preferred s rejected = record s { status = failed }

unfoldable pub steps : (preferred : String) → Desk → List Event → Desk
unfolding step
steps preferred s [] = s
steps preferred s (e ∷ rest) = steps preferred (step preferred s e) rest
