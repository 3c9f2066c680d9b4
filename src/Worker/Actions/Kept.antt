-- ===== src/Worker/Actions/Kept.antt =====
-- Which actions are kept as they are (services/api/internal/worker/validator.go).
use data_trains.Base.{
  ℤ, String, Bool, true, false, not, ◌&&◌, ◌||◌, ◌==◌, ltb, eqb, ◌≡◌, refl, ap, ◌∙◌, arith, Option,
  none, some, List, [], ◌∷◌, if◌then◌else◌, Bool-cases, inl, inr,
}
use data_trains.Worker.Actions.{
  Json, null, truth, number, text, array, object, Members, get, string_of, is_text, Pointer, Turn,
  keep, drop, fold, turn, move_turn, release_of, click_fields, normalize_from, normalize_actions,
  head?, elapsed, uint_value, mouse_move_interval,
}

-- The action is neither a movement of the pointer nor a press or release of one of its buttons.
unfoldable pub is_event : Json → Bool
unfolding get string_of
is_event (object action) =
    let type_name = string_of (get "type" action) in
    not (
      type_name == "mouse_move"
      || type_name == "mouse_down"
      || type_name == "mouse_up"
      || type_name == "click")
is_event v = true

-- The events of a list, in their order.
unfoldable pub events : List Json → List Json
events [] = []
events (v ∷ vs) = let rest = events vs in if is_event v then v ∷ rest else rest

-- What a turn may do, as far as events go.
abbrev Keeps : Json → Option Json → Turn → Type 0
Keeps v next (keep w q) = w ≡ v
Keeps v next (drop q) = is_event v ≡ false
Keeps v next (fold w q) =
    (is_event v ≡ false)
    × (is_event w ≡ false)
    × (n : Json) × (next ≡ some n)
    × (is_event n ≡ false)

is_text-string_of : (s : String) (v : Json) → is_text s v ≡ true → (string_of v == s) ≡ true
unfolding is_text string_of
is_text-string_of s (text t) h = h
is_text-string_of s v h = cc

release-IsEvent :
    (button : String) (next : Option Json) (released : Members)
    → release_of button next ≡ some released
    → (next ≡ some (object released)) × (is_event (object released) ≡ false)
unfolding release_of is_event
release-IsEvent button none released h = cc
release-IsEvent button (some (object f)) released h =
    elim (Bool-cases (is_text "mouse_up" (get "type" f))) [
      | inl e ↦
          let t = is_text-string_of "mouse_up" (get "type" f) e in (ground arith, ground arith)
      | inr e ↦ absurd (ground arith)
    ]
release-IsEvent button (some v) released h = cc

click-IsEvent :
    (button : String) (next : Members) (p : Pointer)
    → is_event (object (click_fields button next p)) ≡ false
unfolding click_fields is_event
click-IsEvent button next p = refl

abbrev tail : List Json → List Json
tail [] = []
tail (v ∷ vs) = vs

module _ (int64_of : String → ℤ) where
  move-Keeps :
      (p : Pointer) (action : Members) (next : Option Json)
      → is_event (object action) ≡ false
      → Keeps (object action) next (move_turn int64_of p action)
  unfolding move_turn
  move-Keeps p action next h =
      choose
        (not (eqb p.last_mouse_move 0)
          && ltb (elapsed (uint_value int64_of (get "timestamp_ns" action)) p.last_mouse_move)
              mouse_move_interval)
        _ _
    where
      choose :
          (b : Bool) (q r : Pointer)
          → Keeps (object action) next (if b then drop q else keep (object action) r)
      choose true q r = h
      choose false q r = refl

  down-Keeps :
      (p : Pointer) (action : Members) (next : Option Json) (o : Option Members)
      → release_of (string_of (get "button" action)) next ≡ o
      → is_event (object action) ≡ false
      → Keeps (object action) next (elim o [
        | some released ↦
            fold (object (click_fields (string_of (get "button" action)) released p)) p
        | none ↦ keep (object action) p
      ])
  down-Keeps p action next none e h = refl
  down-Keeps p action next (some released) e h =
      let r = release-IsEvent (string_of (get "button" action)) next released e in
      (h, click-IsEvent (string_of (get "button" action)) released p, object released, r.0, r.1)

  turn-Keeps : (p : Pointer) (v : Json) (next : Option Json) → Keeps v next (turn int64_of p v next)
  unfolding turn is_event move_turn
  turn-Keeps p (object action) next =
      elim (Bool-cases (string_of (get "type" action) == "mouse_move")) [
        | inl m ↦ rw m (move-Keeps p action next (ground arith))
        | inr m ↦ elim (Bool-cases (string_of (get "type" action) == "mouse_down")) [
          | inl d ↦ rw (m, d) (down-Keeps p action next _ refl (ground arith))
          | inr d ↦ rw (m, d) refl
        ]
      ]
  turn-Keeps p null next = refl
  turn-Keeps p (truth b) next = refl
  turn-Keeps p (number n) next = refl
  turn-Keeps p (text t) next = refl
  turn-Keeps p (array xs) next = refl

  Keeps-events :
      (v : Json) (vs : List Json) (t : Turn)
      → Keeps v (head? vs) t
      → ((q : Pointer) → events (normalize_from int64_of false q vs) ≡ events vs)
      → ((n : Json) (rest : List Json) (q : Pointer)
          → vs ≡ n ∷ rest
          → events (normalize_from int64_of true q vs) ≡ events rest)
      → events (elim t [
        | keep w q ↦ w ∷ normalize_from int64_of false q vs
        | drop q ↦ normalize_from int64_of false q vs
        | fold w q ↦ w ∷ normalize_from int64_of true q vs
      ])
        ≡ events (v ∷ vs)
  unfolding events
  Keeps-events v vs (keep w q) k f g = ground (arith, f q)
  Keeps-events v vs (drop q) k f g = ground (arith, f q)
  Keeps-events v [] (fold w q) k f g = cc (k.3)
  Keeps-events v (n ∷ rest) (fold w q) k f g = ground (arith, g n rest q refl)

  normalize_from-events :
      (p : Pointer) (vs : List Json) → events (normalize_from int64_of false p vs) ≡ events vs
  unfolding normalize_from events
  normalize_from-events p [] = refl
  normalize_from-events p (v ∷ []) =
      Keeps-events v [] (turn int64_of p v none) (turn-Keeps p v none) (λ q. refl)
        (λ n rest q e. cc)
  normalize_from-events p (v ∷ n ∷ rest) =
      Keeps-events v (n ∷ rest) (turn int64_of p v (some n)) (turn-Keeps p v (some n))
        (λ q. normalize_from-events q (n ∷ rest))
        (λ m others q e. normalize_from-events q rest ∙ ap (λ l. events (tail l)) e)

  -- Normalizing keeps every action that is neither a movement of the pointer nor a press or release
  -- of a button or a click as it is, none more and none less, in their order.
  pub normalize_actions-events :
      (actions : List Json) → events (normalize_actions int64_of actions) ≡ events actions
  unfolding normalize_actions
  normalize_actions-events actions =
      normalize_from-events (record { last_mouse_move = 0; x = ""; y = "" }) actions
