-- ===== src/Worker/Actions.antt =====
-- `normalizeActions` (services/api/internal/worker/validator.go).
pub mod Kept
pub mod Spaced
use data_trains.Base.{
  ℕ, ◌+◌, ◌-◌, ◌%◌, ◌^◌, ℤ, pos, negsuc, String, Bool, true, false, not, ◌&&◌, ◌||◌, ◌==◌, ltb, eqb,
  Option, none, some, List, [], ◌∷◌, if◌then◌else◌,
}

-- A decoded JSON value. A `json.Number` keeps its text; an object has each key once.
mutual
  pub data Json : Type 0 where
    null : Json
    truth : Bool → Json
    number : String → Json
    text : String → Json
    array : Elements → Json
    object : Members → Json

  pub data Elements : Type 0 where
    no_element : Elements
    element : Json → Elements → Elements

  pub data Members : Type 0 where
    no_member : Members
    member : String → Json → Members → Members

-- The value under a key; a missing key gives nil.
unfoldable pub get : String → Members → Json
get k no_member = null
get k (member j v fs) = if j == k then v else get k fs

unfoldable pub has : String → Members → Bool
has k no_member = false
has k (member j v fs) = j == k || has k fs

-- `v.(string)`, and `""` of another value
unfoldable pub string_of : Json → String
string_of (text s) = s
string_of _ = ""

-- `v.(json.Number)`, and `""` of another value
unfoldable pub number_of : Json → String
number_of (number s) = s
number_of _ = ""

-- `next["type"] == "mouse_up"`
unfoldable pub is_text : String → Json → Bool
is_text s (text t) = t == s
is_text s _ = false

-- `int64_of` is `json.Number.Int64`, with 0 where it fails and the nearest bound out of range.
module _ (int64_of : String → ℤ) where
  -- `uintValue`; a decoder with `UseNumber` gives no `float64`.
  unfoldable pub uint_value : Json → ℕ
  uint_value (number s) = elim (int64_of s) [ pos n ↦ n | negsuc n ↦ 0 ]
  uint_value _ = 0

-- The variables of the loop: the time of the last move that was kept and the pointer's place.
pub record Pointer : Type 0 where
  pub last_mouse_move : ℕ
  pub x : String
  pub y : String

-- `timestamp-lastMouseMove` of `uint64`
unfoldable pub elapsed : ℕ → ℕ → ℕ
elapsed timestamp last = (timestamp + 2 ^ 64 - last) % 2 ^ 64

-- 100 ms
abbrev pub mouse_move_interval : ℕ
mouse_move_interval = 100000000

-- What the loop does with one element: it keeps a value, drops it, or keeps one value for it and the
-- next.
pub data Turn : Type 0 where
  keep : Json → Pointer → Turn
  drop : Pointer → Turn
  fold : Json → Pointer → Turn

-- The click that stands for a button that goes down and up again.
pub click_fields : String → Members → Pointer → Members
unfolding get has
click_fields button next p =
    let timed = member "timestamp_ns" (get "timestamp_ns" next) in
    let placed =
      if not (p.x == "") && not (p.y == "")
      then member "x" (number p.x) (member "y" (number p.y) no_member)
      else no_member in
    let named =
      if has "application" next
      then member "application" (get "application" next) placed
      else placed in
    timed (member "type" (text "click") (member "button" (text button) named))

abbrev pub head? : List Json → Option Json
head? [] = none
head? (v ∷ vs) = some v

-- The next element, if it is the release of the button.
pub release_of : String → Option Json → Option Members
unfolding get string_of is_text
release_of button (some (object next)) =
    if is_text "mouse_up" (get "type" next)
      && not (button == "")
      && button == string_of (get "button" next)
    then some next
    else none
release_of button _ = none

module _ (int64_of : String → ℤ) where
  pub move_turn : Pointer → Members → Turn
  unfolding get number_of uint_value elapsed
  move_turn p action =
      let timestamp = uint_value int64_of (get "timestamp_ns" action) in
      let x = number_of (get "x" action) in
      let y = number_of (get "y" action) in
      if not (eqb p.last_mouse_move 0)
        && ltb (elapsed timestamp p.last_mouse_move) mouse_move_interval
      then drop (record p { x = x; y = y })
      else keep (object action) (record { last_mouse_move = timestamp; x = x; y = y })

  -- One element, with the next one.
  unfoldable pub turn : Pointer → Json → Option Json → Turn
  unfolding move_turn release_of click_fields get string_of
  turn p (object action) next =
      let type_name = string_of (get "type" action) in
      let button = string_of (get "button" action) in
      if type_name == "mouse_move"
      then move_turn p action
      else if type_name == "mouse_down"
      then elim (release_of button next) [
        | some released ↦ fold (object (click_fields button released p)) p
        | none ↦ keep (object action) p
      ]
      else keep (object action) p
  turn p v next = keep v p

  -- The loop; `skip` says that the element was folded into the one before.
  unfoldable pub normalize_from : Bool → Pointer → List Json → List Json
  unfolding turn
  normalize_from skip p [] = []
  normalize_from true p (v ∷ vs) = normalize_from false p vs
  normalize_from false p (v ∷ vs) = elim (turn p v (head? vs)) [
    | keep w q ↦ w ∷ normalize_from false q vs
    | drop q ↦ normalize_from false q vs
    | fold w q ↦ w ∷ normalize_from true q vs
  ]

  -- `normalizeActions`
  unfoldable pub normalize_actions : List Json → List Json
  unfolding normalize_from
  normalize_actions actions =
      normalize_from false (record { last_mouse_move = 0; x = ""; y = "" }) actions
