-- ===== src/Roster/Actions.antt =====
-- web/src/components/admin/participant-actions.tsx: the dialog of an action on one participant. A number is
-- of any type; `Number(s)`, `String(n)` and `trim` are arguments.
use codolympics.Prelude.{
  ℕ, Bool, true, false, not, ◌&&◌, String, List, [], ◌∷◌, Option, none, some, if◌then◌else◌, leb,
  find, str_eq,
}
use codolympics.Widgets.Dialogs.{size}

-- `ParticipantRow`.
pub record Participant : Type 0 where
  pub id : String
  pub name : String
  pub username : Option String
  pub balance : ℕ
  pub preferred_language : Option String
  pub owned : ℕ
  pub disqualified : Bool
  pub disqualified_reason : Option String
  pub proctor_alerts : ℕ
  pub proctor_locked : Bool

pub data Kind : Type 0 where
  adjust password rename disqualify requalify remove assign unlock : Kind

pub record UnsoldQuestion (N : Type 0) : Type 0 where
  pub id : String
  pub title : String
  pub base_price : N

-- `v`.
pub record Fields : Type 0 where
  pub delta : String
  pub password : String
  pub name : String
  pub qid : String
  pub price : String

-- What is asked of the engine about the participant `who`.
pub data Request (N : Type 0) : Type 0 where
  to_adjust : (who reason : String) → (delta : N) → Request N
  to_password : (who reason password : String) → Request N
  to_rename : (who reason name : String) → Request N
  to_disqualify to_requalify to_unlock to_remove : (who reason : String) → Request N
  to_assign : (question reason who : String) → (price : N) → Request N

-- `sent` has the latest request first.
pub record Dialog (N : Type 0) : Type 0 where
  pub v : Fields
  pub reason : String
  pub error : Option String
  pub busy : Bool
  pub sent : List (Request N)

pub record Numbers (N : Type 0) : Type 0 where
  pub number : String → N
  pub text : N → String
  pub zero_text : String
  pub trim : String → String

pub data Field : Type 0 where
  delta_field password_field name_field price_field reason_field : Field

pub data Event : Type 0 where
  typed : Field → String → Event
  chose : (qid : String) → Event
  confirmed done : Event
  refused : String → Event

module _ {N : Type 0} (js : Numbers N) (unsold : List (UnsoldQuestion N)) where
  abbrev price_of : Option (UnsoldQuestion N) → String
  price_of none = js.zero_text
  price_of (some u) = js.text u.base_price

  abbrev first_of : List (UnsoldQuestion N) → Option (UnsoldQuestion N)
  first_of [] = none
  first_of (u ∷ rest) = some u

  abbrev id_or_blank : Option (UnsoldQuestion N) → String
  id_or_blank none = ""
  id_or_blank (some u) = u.id

  -- The fields as the dialog opens.
  unfoldable pub opened : Participant → Dialog N
  opened p = record {
    v = record {
      delta = "";
      password = "";
      name = p.name;
      qid = id_or_blank (first_of unsold);
      price = price_of (first_of unsold);
    };
    reason = "";
    error = none;
    busy = false;
    sent = [];
  }

  -- The request of `go`.
  unfoldable pub request : Kind → Participant → Dialog N → Request N
  request adjust p d = to_adjust p.id d.reason (js.number d.v.delta)
  request password p d = to_password p.id d.reason d.v.password
  request rename p d = to_rename p.id d.reason d.v.name
  request disqualify p d = to_disqualify p.id d.reason
  request requalify p d = to_requalify p.id d.reason
  request unlock p d = to_unlock p.id d.reason
  request remove p d = to_remove p.id d.reason
  request assign p d = to_assign d.v.qid d.reason p.id (js.number d.v.price)

  unfoldable pub can_confirm : Dialog N → Bool
  unfolding size
  can_confirm d = not d.busy && leb 3 (size (js.trim d.reason))

  unfoldable pub go : Kind → Participant → Dialog N → Dialog N
  unfolding request
  go kind p d = record d { busy = true; error = none; sent = request kind p d ∷ d.sent }

  unfoldable pub write : Field → String → Dialog N → Dialog N
  write delta_field t d = record d { v = record d.v { delta = t } }
  write password_field t d = record d { v = record d.v { password = t } }
  write name_field t d = record d { v = record d.v { name = t } }
  write price_field t d = record d { v = record d.v { price = t } }
  write reason_field t d = record d { reason = t }

  -- Choosing a question sets the price to its base price.
  unfoldable pub choose : String → Dialog N → Dialog N
  choose qid d = record d {
    v = record d.v {
      qid = qid;
      price = price_of (find (λ (u : UnsoldQuestion N). str_eq u.id qid) unsold);
    };
  }

  unfoldable pub step : Kind → Participant → Dialog N → Event → Dialog N
  unfolding can_confirm go write choose
  step kind p d (typed f t) = write f t d
  step kind p d (chose qid) = choose qid d
  step kind p d confirmed = if can_confirm d then go kind p d else d
  step kind p d done = record d { busy = false }
  step kind p d (refused why) = record d { error = some why; busy = false }

  unfoldable pub steps : Kind → Participant → Dialog N → List Event → Dialog N
  unfolding step
  steps kind p d [] = d
  steps kind p d (e ∷ es) = steps kind p (step kind p d e) es
