-- ===== src/Shop/Powerups.antt =====
-- web/src/components/admin/powerups.tsx: `PowerupDetail` and `PowerupFields`, the draft of a powerup's
-- settings, and `AttackRules`. A number is of any type. In a draft a field that may be null is an option
-- of an option: not edited, cleared, or given a value.
use codolympics.Prelude.{
  Bool, not, ◌||◌, String, List, [], ◌∷◌, ◌++◌, Option, none, some, if◌then◌else◌, or_else, is_some,
  includes, keep, str_eq,
}
use codolympics.Rounds.Hacks.{or_first}

pub record Powerup (N : Type 0) : Type 0 where
  pub name : String
  pub description : String
  pub price : N
  pub duration_seconds : Option N
  pub enabled : Bool
  pub max_held : Option N
  pub max_purchases : Option N
  pub usable_phases : List String

-- `Partial<Powerup>`.
pub record Draft (N : Type 0) : Type 0 where
  pub name : Option String
  pub description : Option String
  pub price : Option N
  pub duration_seconds : Option (Option N)
  pub enabled : Option Bool
  pub max_held : Option (Option N)
  pub max_purchases : Option (Option N)
  pub usable_phases : Option (List String)

module _ {N : Type 0} where
  unfoldable pub no_edits : Draft N
  no_edits = record {
    name = none;
    description = none;
    price = none;
    duration_seconds = none;
    enabled = none;
    max_held = none;
    max_purchases = none;
    usable_phases = none;
  }

  -- `draft[k] ?? row[k]` of a field that may be null: a cleared one counts as not edited.
  unfoldable pub value_of : Option (Option N) → Option N → Option N
  value_of none row = row
  value_of (some edit) row = or_first edit row

  -- What the fields of the form show.
  unfoldable pub shown : Draft N → Powerup N → Powerup N
  unfolding value_of
  shown d row = record {
    name = or_else d.name row.name;
    description = or_else d.description row.description;
    price = or_else d.price row.price;
    duration_seconds = value_of d.duration_seconds row.duration_seconds;
    enabled = or_else d.enabled row.enabled;
    max_held = value_of d.max_held row.max_held;
    max_purchases = value_of d.max_purchases row.max_purchases;
    usable_phases = or_else d.usable_phases row.usable_phases;
  }

  -- `Object.keys(draft).length > 0`.
  unfoldable is_dirty : Draft N → Bool
  is_dirty d =
      is_some d.name
      || is_some d.description
      || is_some d.price
      || is_some d.duration_seconds
      || is_some d.enabled
      || is_some d.max_held
      || is_some d.max_purchases
      || is_some d.usable_phases

  -- `NumberField`: a blank is null. `Number` of the text comes with the change.
  unfoldable pub entered : String → N → Option N
  entered text number = if str_eq text "" then none else some number

  unfoldable pub edit_max_held : String → N → Draft N → Draft N
  unfolding entered
  edit_max_held text number d = record d { max_held = some (entered text number) }

  unfoldable pub toggle_phase : String → Powerup N → Draft N → Draft N
  toggle_phase key row d =
      let picked = or_else d.usable_phases row.usable_phases in
      record d {
        usable_phases = some (
            if includes picked key
            then keep (λ p. not (str_eq p key)) picked
            else picked ++ key ∷ []);
      }

-- `AttackRules`: the numbers as drafted.
pub data AfterCap : Type 0 where
  break forever : AfterCap

pub record Rules (N : Type 0) : Type 0 where
  pub reveal_attacker : Bool
  pub reveal_shields : Bool
  pub attack_cap : N
  pub attack_break_seconds : N
  pub count_absorbed : Bool
  pub after_cap : AfterCap

pub record RulesDraft (N : Type 0) : Type 0 where
  pub attack_cap : Option N
  pub attack_break_seconds : Option N
  pub after_cap : Option AfterCap

pub data Switch : Type 0 where
  revealing_attacker revealing_shields counting_absorbed : Switch

module _ {N : Type 0} where
  -- `flip(key, on)`, up to its request.
  unfoldable flip : Switch → Bool → Rules N → Rules N
  flip revealing_attacker on r = record r { reveal_attacker = on }
  flip revealing_shields on r = record r { reveal_shields = on }
  flip counting_absorbed on r = record r { count_absorbed = on }

  -- The rules with what has been drafted.
  unfoldable shown_rules : RulesDraft N → Rules N → Rules N
  shown_rules d r = record r {
    attack_cap = or_else d.attack_cap r.attack_cap;
    attack_break_seconds = or_else d.attack_break_seconds r.attack_break_seconds;
    after_cap = or_else d.after_cap r.after_cap;
  }
