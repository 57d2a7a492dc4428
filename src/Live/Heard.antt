-- ===== src/Live/Heard.antt =====
-- contest-provider.tsx: what `apply` and the loop over a poll's events tell the listeners.
use codolympics.Prelude.{
  ℕ, ◌≡◌, refl, sym, ap, ◌∙◌, Bool, true, false, String, List, [], ◌∷◌, ◌++◌, Option, none, some,
  if◌then◌else◌, str_eq, includes,
}
use mathlib.Core.List.{append-nil, append_assoc}
use codolympics.Live.{Fields, property, as_number, EngineEvent, ContestState}
use codolympics.Live.Events.{
  Client, apply, apply_other, tell, note_server_now, is_final_verdict, reread_names,
}
use codolympics.Live.Polling.{apply_all, read_state}

if-heard :
    (b : Bool) (x y : Client) (k : List EngineEvent)
    → x.heard ≡ k
    → y.heard ≡ k
    → (if b then x else y).heard ≡ k
if-heard true x y k p q = p
if-heard false x y k p q = q

pub note_server_now-heard :
    (now : ℕ) (o : Option ℕ) (c : Client) → (note_server_now now o c).heard ≡ c.heard
unfolding note_server_now
note_server_now-heard now none c = refl
note_server_now-heard now (some s) c = refl

apply_other-heard :
    (name : String) (d : Fields) (o : Option ℕ) (c : Client)
    → (apply_other name d o c).heard ≡ c.heard
unfolding apply_other
apply_other-heard name d none c =
    if-heard (str_eq name "verdict") _ _ _ (if-heard (is_final_verdict d) _ _ _ refl refl)
      (if-heard (includes reread_names name) _ _ _ refl refl)
apply_other-heard name d (some b) c = if-heard (str_eq name "balance") _ _ _ refl (
    if-heard (str_eq name "verdict") _ _ _ (if-heard (is_final_verdict d) _ _ _ refl refl)
      (if-heard (includes reread_names name) _ _ _ refl refl))

-- Whatever its name, an event that is applied is told to the listeners, once.
apply-heard : (now : ℕ) (e : EngineEvent) (c : Client) → (apply now e c).heard ≡ c.heard ++ e ∷ []
unfolding apply tell
apply-heard now e c =
    let o = as_number (property "server_now" e.data_fields) in
    let told : (tell e (note_server_now now o c)).heard ≡ c.heard ++ e ∷ [] =
      ap (λ (l : List EngineEvent). l ++ e ∷ []) (note_server_now-heard now o c) in
    if-heard (str_eq e.name "auction") _ _ _ told (
      if-heard (str_eq e.name "phase") _ _ _ told
        (apply_other-heard e.name e.data_fields _ (tell e (note_server_now now o c)) ∙ told))

pub apply_all-heard :
    (now : ℕ) (es : List EngineEvent) (c : Client) → (apply_all now es c).heard ≡ c.heard ++ es
unfolding apply_all
apply_all-heard now [] c = sym (append-nil c.heard)
apply_all-heard now (e ∷ rest) c =
    apply_all-heard now rest (apply now e c)
    ∙ ap (λ (l : List EngineEvent). l ++ rest) (apply-heard now e c)
    ∙ append_assoc c.heard (e ∷ []) rest

pub read_state-heard :
    (now : ℕ) (fresh : ContestState) (c : Client) → (read_state now fresh c).heard ≡ c.heard
unfolding read_state
read_state-heard now fresh c = note_server_now-heard now _ (record c { state = some fresh })
