-- ===== src/Authoring/Editing.antt =====
-- web/src/components/admin/puzzle-builder.tsx: the controls that change the form, what the self-test
-- sends, and what may be done with a stored puzzle. `"\n"`'s split is a parameter.
use codolympics.Prelude.{
  ℕ, Bool, false, not, ◌&&◌, ◌||◌, String, List, [], ◌∷◌, ◌++◌, Option, none, some, if◌then◌else◌,
  ◌==◌, length, get_elem?, keep,
}
use Prim.Native.String.{◌++◌ as joined}
use codolympics.Widgets.ListEditor.{identity_from}
use codolympics.Authoring.Platform.{Platform, clean, or_null}
use codolympics.Authoring.Puzzle.{
  Kind, Grading, Puzzle, Form, Payload, to_payload, is_fill, is_sequence, is_set, is_long, is_mcq,
  is_auto,
}

-- The ways of grading that cannot be chosen.
unfoldable pub grading_disabled : Kind → Grading → Bool
unfolding is_long is_set is_fill
grading_disabled k Grading.auto = is_long k
grading_disabled k Grading.validator = not (is_set k) && not (is_fill k) && not (is_long k)
grading_disabled k Grading.manual = false

module _ {F : Type 0} where
  -- A written answer cannot keep an answer key.
  unfoldable pub choose_kind : Kind → Form F → Form F
  unfolding is_long is_auto
  choose_kind k f = record f {
    kind = k;
    grading = if is_long k && is_auto f.grading then Grading.manual else f.grading;
  }

  unfoldable pub edit_options : List String → Form F → Form F
  edit_options v f = record f { options = v }

  unfoldable edit_items : List String → Form F → Form F
  unfolding identity_from
  edit_items v f = record f { items = v; key_order = identity_from 0 (length v) }

  unfoldable mark_option : ℕ → Form F → Form F
  mark_option i f = record f { key_option = some i }

  unfoldable tick_option : ℕ → (checked : Bool) → Form F → Form F
  tick_option i checked f = record f {
    key_options =
        if checked then f.key_options ++ i ∷ [] else keep (λ x. not (x == i)) f.key_options;
  }

  unfoldable choose_grading : Grading → Form F → Form F
  unfolding grading_disabled
  choose_grading g f = if grading_disabled f.kind g then f else record f { grading = g }

-- What a participant is shown.
pub record View (F : Type 0) : Type 0 where
  pub id : ℕ
  pub title : String
  pub body_md : String
  pub category : String
  pub kind : Kind
  pub grading : Grading
  pub points : F
  pub explain_points : F
  pub options : Option (List String)
  pub items : Option (List String)
  pub max_entries : F
  pub format_regex : Option String
  pub format_hint : Option String

-- The self-test's request.
pub data Test (A : Type 0) : Type 0 where
  entries : (should_pass should_fail : List String) → Test A
  answer : A → Test A
  nothing : Test A

module _ {F : Type 0} (js : Platform F) where
  unfoldable to_view : Form F → ℕ → View F
  unfolding clean is_mcq is_sequence or_null
  to_view f id = record {
    id = id;
    title = f.title;
    body_md = f.body_md;
    category = f.category;
    kind = f.kind;
    grading = f.grading;
    points = f.points;
    explain_points = f.explain_points;
    options = if is_mcq f.kind then some (clean js.trim f.options) else none;
    items = if is_sequence f.kind then some (clean js.trim f.items) else none;
    max_entries = f.max_entries;
    format_regex = or_null (js.trim f.format_regex);
    format_hint = or_null (js.trim f.format_hint);
  }

  -- What `save()` sends.
  unfoldable pub saved_as : (existing : Bool) → Form F → Payload F
  unfolding to_payload
  saved_as existing f = to_payload js f (
      joined (if existing then "Edited" else "Created")
        (joined " the puzzle “" (joined (js.trim f.title) "”.")))

  -- The option that stands marked as the correct one under Grading.
  unfoldable pub marked : Form F → Option String
  unfolding clean
  marked f = elim f.key_option [ none ↦ none | some i ↦ get_elem? (clean js.trim f.options) i ]

  unfoldable test_body :
      {A : Type 0}
      → (split : String → List String) → Grading
      → (should_pass should_fail : String) → A
      → Test A
  unfolding clean
  test_body split Grading.validator pass fail a =
      entries (clean js.trim (split pass)) (clean js.trim (split fail))
  test_body split Grading.auto pass fail a = answer a
  test_body split Grading.manual pass fail a = nothing

-- The buttons under "Publish".
pub data Deed : Type 0 where
  publish unpublish void delete : Deed

unfoldable pub may : {F : Type 0} → Deed → Puzzle F → Bool
may publish p = not p.published && not (not p.ready || p.voided)
may unpublish p = p.published
may void p = not p.voided
may delete p = not p.published
