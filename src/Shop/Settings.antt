-- ===== src/Shop/Settings.antt =====
-- admin/powerups.tsx: what the form shows against what is saved.
use codolympics.Prelude.{◌≡◌, refl, Option, none, some, or_else}
use codolympics.Shop.Powerups.{Powerup, Draft, value_of, shown, entered, edit_max_held}

module _ {N : Type 0} where
  abbrev patched : Option (Option N) → Option N → Option N
  patched none row = row
  patched (some edit) row = edit

  -- A stored powerup once a draft's fields have been written to it, each as it was sent.
  abbrev pub saved : Draft N → Powerup N → Powerup N
  saved d row = record {
    name = or_else d.name row.name;
    description = or_else d.description row.description;
    price = or_else d.price row.price;
    duration_seconds = patched d.duration_seconds row.duration_seconds;
    enabled = or_else d.enabled row.enabled;
    max_held = patched d.max_held row.max_held;
    max_purchases = patched d.max_purchases row.max_purchases;
    usable_phases = or_else d.usable_phases row.usable_phases;
  }

  -- A field that has not been cleared.
  abbrev pub IsFilled : Option (Option N) → Type 0
  IsFilled none = Unit
  IsFilled (some none) = ⊥
  IsFilled (some (some n)) = Unit

  value_of-filled :
      (edit : Option (Option N)) (row : Option N)
      → IsFilled edit
      → value_of edit row ≡ patched edit row
  unfolding value_of
  value_of-filled none row h = refl
  value_of-filled (some none) row h = absurd h
  value_of-filled (some (some n)) row h = refl

  -- Where no field has been cleared, the form shows the settings that saving its draft leaves.
  pub shown-saved :
      (d : Draft N) (row : Powerup N)
      → IsFilled d.duration_seconds
      → IsFilled d.max_held
      → IsFilled d.max_purchases
      → shown d row ≡ saved d row
  unfolding shown
  shown-saved d row h k m = λ i. record {
    name = or_else d.name row.name;
    description = or_else d.description row.description;
    price = or_else d.price row.price;
    duration_seconds = value_of-filled d.duration_seconds row.duration_seconds h i;
    enabled = or_else d.enabled row.enabled;
    max_held = value_of-filled d.max_held row.max_held k i;
    max_purchases = value_of-filled d.max_purchases row.max_purchases m i;
    usable_phases = or_else d.usable_phases row.usable_phases;
  }

  -- A limit that is cleared is shown as it was, and saved as no limit.
  pub cleared_limit_shown :
      (d : Draft N) (row : Powerup N) (number : N)
      → ((shown (edit_max_held "" number d) row).max_held ≡ row.max_held)
        × ((saved (edit_max_held "" number d) row).max_held ≡ none)
  unfolding shown value_of edit_max_held entered
  cleared_limit_shown d row number = (refl, refl)
