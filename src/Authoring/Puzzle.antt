-- ===== src/Authoring/Puzzle.antt =====
-- web/src/components/admin/puzzle-builder.tsx: the form of one Section A puzzle, how it is filled from a
-- stored puzzle and what it sends; and the stored puzzle of web/src/components/admin/phase1-types.ts.
-- `Category` is its text. A key's positions, which the page itself numbers, are numbers from 0.
use codolympics.Prelude.{
  ℕ, Bool, true, false, not, ◌&&◌, ◌||◌, String, List, [], ◌∷◌, Option, none, some, if◌then◌else◌,
  leb, ◌==◌, length, or_else, str_eq, sort_by,
}
use codolympics.Widgets.ListEditor.{identity_from}
use codolympics.Authoring.Platform.{Platform, clean, or_null, or_blank}

pub data Kind : Type 0 where
  mcq_single mcq_multi fill_blank numeric sequence many long_text : Kind

pub data Grading : Type 0 where
  auto validator manual : Grading

unfoldable pub is_single : Kind → Bool
is_single mcq_single = true
is_single _ = false

unfoldable pub is_multi : Kind → Bool
is_multi mcq_multi = true
is_multi _ = false

unfoldable pub is_fill : Kind → Bool
is_fill fill_blank = true
is_fill _ = false

unfoldable pub is_numeric : Kind → Bool
is_numeric numeric = true
is_numeric _ = false

unfoldable pub is_sequence : Kind → Bool
is_sequence sequence = true
is_sequence _ = false

unfoldable pub is_set : Kind → Bool
is_set many = true
is_set _ = false

unfoldable pub is_long : Kind → Bool
is_long long_text = true
is_long _ = false

unfoldable pub is_mcq : Kind → Bool
unfolding is_single is_multi
is_mcq k = is_single k || is_multi k

unfoldable pub is_auto : Grading → Bool
is_auto auto = true
is_auto _ = false

unfoldable pub is_validator : Grading → Bool
is_validator validator = true
is_validator _ = false

unfoldable pub is_manual : Grading → Bool
is_manual manual = true
is_manual _ = false

pub record Config (F : Type 0) : Type 0 where
  pub options : Option (List String)
  pub items : Option (List String)
  pub partial_credit : Option Bool
  pub tolerance : Option F
  pub case_sensitive : Option Bool

pub record Key (F : Type 0) : Type 0 where
  pub option : Option ℕ
  pub options : Option (List ℕ)
  pub accepted : Option (List String)
  pub value : Option F
  pub order : Option (List ℕ)
  pub members : Option (List String)

pub record Puzzle (F : Type 0) : Type 0 where
  pub id : ℕ
  pub title : String
  pub body_md : String
  pub category : String
  pub kind : Kind
  pub grading : Grading
  pub points : F
  pub explain_points : F
  pub order_index : F
  pub published : Bool
  pub voided : Bool
  pub ready : Bool
  pub config : Config F
  pub answer_key : Option (Key F)
  pub model_answer : Option String
  pub validator_py : Option String
  pub points_per_entry : Option F
  pub max_entries : F
  pub format_regex : Option String
  pub format_hint : Option String

pub data QuestionState : Type 0 where
  draft ready live void : QuestionState

unfoldable pub state_of : {F : Type 0} → Puzzle F → QuestionState
state_of q =
    if q.voided then void else if q.published then live else if q.ready then ready else draft

pub record Form (F : Type 0) : Type 0 where
  pub title : String
  pub category : String
  pub kind : Kind
  pub grading : Grading
  pub points : F
  pub explain_points : F
  pub order_index : F
  pub body_md : String
  pub options : List String
  pub items : List String
  pub partial_credit : Bool
  pub tolerance : String
  pub case_sensitive : Bool
  pub key_option : Option ℕ
  pub key_options : List ℕ
  pub key_accepted : List String
  pub key_value : String
  pub key_order : List ℕ
  pub key_members : List String
  pub model_answer : String
  pub validator_py : String
  pub points_per_entry : F
  pub max_entries : F
  pub format_regex : String
  pub format_hint : String

pub record Payload (F : Type 0) : Type 0 where
  pub reason : String
  pub title : String
  pub body_md : String
  pub category : String
  pub kind : Kind
  pub grading : Grading
  pub points : F
  pub explain_points : F
  pub order_index : F
  pub config : Config F
  pub answer_key : Option (Key F)
  pub model_answer : Option String
  pub validator_py : Option String
  pub points_per_entry : Option F
  pub max_entries : F
  pub format_regex : Option String
  pub format_hint : Option String

abbrev pub two_lines : List String
two_lines = "" ∷ "" ∷ []

abbrev pub three_lines : List String
three_lines = "" ∷ "" ∷ "" ∷ []

abbrev pub one_line : List String
one_line = "" ∷ []

abbrev pub validator_template : String
validator_template =
    "def check(entry):\n    # One submitted entry. Return True to accept it.\n    # entry is a reader: .rest(), .int(lo, hi), .word(), .line(), .ints(n)\n    s = entry.rest().strip()\n    return len(s) == 4 and s.isdigit() and len(set(s)) == 4\n"

-- `Boolean(b)` of a flag that may be missing.
abbrev pub truthy : Option Bool → Bool
truthy b = or_else b false

-- `p.answerKey ?? {}`.
abbrev pub no_key : {F : Type 0} → Key F
no_key = record {
  option = none;
  options = none;
  accepted = none;
  value = none;
  order = none;
  members = none;
}

module _ {F : Type 0} (js : Platform F) where
  unfoldable pub empty : Form F
  empty = record {
    title = "";
    category = "pattern";
    kind = mcq_single;
    grading = auto;
    points = js.literal 10;
    explain_points = js.literal 0;
    order_index = js.literal 1;
    body_md = "";
    options = two_lines;
    items = three_lines;
    partial_credit = false;
    tolerance = "0";
    case_sensitive = false;
    key_option = none;
    key_options = [];
    key_accepted = one_line;
    key_value = "";
    key_order = 0 ∷ 1 ∷ 2 ∷ [];
    key_members = one_line;
    model_answer = "";
    validator_py = validator_template;
    points_per_entry = js.literal 1;
    max_entries = js.literal 100;
    format_regex = "";
    format_hint = "";
  }

  -- `x === undefined ? d : String(x)`.
  unfoldable pub text_of : String → Option F → String
  text_of d none = d
  text_of d (some x) = js.print x

  -- The order of the key: the stored one where it has as many places as there are items.
  unfoldable pub order_of : List String → Option (List ℕ) → List ℕ
  unfolding identity_from
  order_of items none = identity_from 0 (length items)
  order_of items (some order) =
      if length order == length items && not (length items == 0)
      then order
      else identity_from 0 (length items)

  unfoldable pub from_puzzle : Puzzle F → Form F
  unfolding text_of order_of or_blank
  from_puzzle p =
      let k = or_else p.answer_key no_key in
      let c = p.config in
      record {
        title = p.title;
        category = p.category;
        kind = p.kind;
        grading = p.grading;
        points = p.points;
        explain_points = p.explain_points;
        order_index = p.order_index;
        body_md = p.body_md;
        options = or_blank two_lines c.options;
        items = or_blank three_lines c.items;
        partial_credit = truthy c.partial_credit;
        tolerance = text_of "0" c.tolerance;
        case_sensitive = truthy c.case_sensitive;
        key_option = k.option;
        key_options = or_else k.options [];
        key_accepted = or_blank one_line k.accepted;
        key_value = text_of "" k.value;
        key_order = order_of (or_else c.items []) k.order;
        key_members = or_blank one_line k.members;
        model_answer = or_else p.model_answer "";
        validator_py = or_else p.validator_py validator_template;
        points_per_entry = or_else p.points_per_entry (js.literal 1);
        max_entries = p.max_entries;
        format_regex = or_else p.format_regex "";
        format_hint = or_else p.format_hint "";
      }

  -- The fields of `config` are set by the kind, one `if` each.
  unfoldable pub config_of : Form F → Config F
  unfolding clean is_mcq is_sequence is_multi is_set is_numeric is_fill
  config_of f = record {
    options = if is_mcq f.kind then some (clean js.trim f.options) else none;
    items = if is_sequence f.kind then some (clean js.trim f.items) else none;
    partial_credit = if is_multi f.kind || is_set f.kind then some f.partial_credit else none;
    tolerance =
        if is_numeric f.kind && not (str_eq f.tolerance "")
        then some (js.parse f.tolerance)
        else none;
    case_sensitive = if is_fill f.kind || is_set f.kind then some f.case_sensitive else none;
  }

  unfoldable pub key_of : Form F → Key F
  unfolding clean is_single is_multi is_fill is_numeric is_sequence is_set
  key_of f = record {
    option = if is_single f.kind then some (or_else f.key_option 0) else none;
    options = if is_multi f.kind then some (sort_by leb f.key_options) else none;
    accepted = if is_fill f.kind then some (clean js.trim f.key_accepted) else none;
    value = if is_numeric f.kind then some (js.parse f.key_value) else none;
    order = if is_sequence f.kind then some f.key_order else none;
    members = if is_set f.kind then some (clean js.trim f.key_members) else none;
  }

  unfoldable pub to_payload : Form F → String → Payload F
  unfolding config_of key_of or_null is_auto is_validator
  to_payload f reason = record {
    reason = reason;
    title = js.trim f.title;
    body_md = f.body_md;
    category = f.category;
    kind = f.kind;
    grading = f.grading;
    points = f.points;
    explain_points = f.explain_points;
    order_index = f.order_index;
    config = config_of f;
    answer_key = if is_auto f.grading then some (key_of f) else none;
    model_answer = or_null (js.trim f.model_answer);
    validator_py = if is_validator f.grading then some f.validator_py else none;
    points_per_entry = if is_validator f.grading then some f.points_per_entry else none;
    max_entries = f.max_entries;
    format_regex = or_null (js.trim f.format_regex);
    format_hint = or_null (js.trim f.format_hint);
  }
