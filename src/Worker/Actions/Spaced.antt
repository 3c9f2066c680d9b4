-- ===== src/Worker/Actions/Spaced.antt =====
-- How often the pointer's movements are kept (services/api/internal/worker/validator.go).
use data_trains.Base.{
  ℕ, ◌+◌, ◌^◌, ◌<◌, ◌≤◌, ℤ, pos, negsuc, String, Bool, true, false, not, ◌&&◌, ◌==◌, ltb, eqb, ◌≡◌,
  ◌⊎◌, inl, inr, refl, arith, Option, none, some, List, [], ◌∷◌, if◌then◌else◌, Bool-cases, subst,
  sym,
}
use data_trains.Worker.Actions.{
  Json, null, truth, number, text, array, object, Members, get, string_of, number_of, Pointer, Turn,
  keep, drop, fold, turn, move_turn, click_fields, normalize_from, normalize_actions, head?,
  elapsed, uint_value, mouse_move_interval,
}

-- The time of a movement of the pointer.
unfoldable pub move_time : (String → ℤ) → Json → Option ℕ
unfolding get string_of uint_value
move_time int64_of (object action) =
    if string_of (get "type" action) == "mouse_move"
    then some (uint_value int64_of (get "timestamp_ns" action))
    else none
move_time int64_of v = none

unfoldable pub move_times : (String → ℤ) → List Json → List ℕ
unfolding move_time
move_times int64_of [] = []
move_times int64_of (v ∷ vs) =
    let rest = move_times int64_of vs in
    elim (move_time int64_of v) [ none ↦ rest | some t ↦ t ∷ rest ]

-- A movement at `t` may follow one at `last`: 100 ms later, or after one at time 0 or at a later time.
abbrev pub MayFollow : ℕ → ℕ → Type 0
MayFollow last t = (last ≡ 0) ⊎ ((t < last) ⊎ (last + mouse_move_interval ≤ t))

abbrev pub IsSpaced : ℕ → List ℕ → Type 0
IsSpaced last [] = Unit
IsSpaced last (t ∷ ts) = MayFollow last t × IsSpaced t ts

abbrev AtTime : Pointer → Pointer → Option ℕ → Type 0
AtTime p q none = q.last_mouse_move ≡ p.last_mouse_move
AtTime p q (some t) = (q.last_mouse_move ≡ t) × MayFollow p.last_mouse_move t

elapsed-MayFollow :
    (last t : ℕ)
    → t < 2 ^ 64
    → (not (eqb last 0) && ltb (elapsed t last) mouse_move_interval) ≡ false
    → MayFollow last t
unfolding elapsed
elapsed-MayFollow last t b h = elim (Bool-cases (eqb last 0)) [
  | inl z ↦ inl (ground arith)
  | inr n ↦ elim (Bool-cases (ltb t last)) [
    | inl l ↦ inr (inl (ground arith))
    | inr l ↦ inr (inr (ground arith))
  ]
]

module _ (int64_of : String → ℤ)
    (in_range : (s : String) (n : ℕ) → int64_of s ≡ pos n → n < 2 ^ 63) where
  abbrev Spaces : Pointer → Turn → Type 0
  Spaces p (keep w q) = AtTime p q (move_time int64_of w)
  Spaces p (drop q) = q.last_mouse_move ≡ p.last_mouse_move
  Spaces p (fold w q) = (move_time int64_of w ≡ none) × (q.last_mouse_move ≡ p.last_mouse_move)

  uint_value-lt : (v : Json) → uint_value int64_of v < 2 ^ 64
  unfolding uint_value
  uint_value-lt (number s) = go (int64_of s) refl
    where
      go : (z : ℤ) → int64_of s ≡ z → elim z [ pos n ↦ n | negsuc n ↦ 0 ] < 2 ^ 64
      go (pos n) e = omega (arith, in_range s n e)
      go (negsuc n) e = omega arith
  uint_value-lt v = omega arith

  kept-Spaces :
      (p : Pointer) (action : Members) (x y : String)
      → (string_of (get "type" action) == "mouse_move") ≡ true
      → (not (eqb p.last_mouse_move 0)
          && ltb
              (elapsed (uint_value int64_of (get "timestamp_ns" action)) p.last_mouse_move)
              mouse_move_interval)
        ≡ false
      → Spaces p (
          keep (object action) (record {
            last_mouse_move = uint_value int64_of (get "timestamp_ns" action);
            x = x;
            y = y;
          }))
  unfolding move_time
  kept-Spaces p action x y m h = rw m (
    refl,
    elapsed-MayFollow p.last_mouse_move (uint_value int64_of (get "timestamp_ns" action))
        (uint_value-lt (get "timestamp_ns" action)) h,
  )

  move-Spaces :
      (p : Pointer) (action : Members)
      → (string_of (get "type" action) == "mouse_move") ≡ true
      → Spaces p (move_turn int64_of p action)
  unfolding move_turn
  move-Spaces p action m =
      choose
        (not (eqb p.last_mouse_move 0)
          && ltb (elapsed (uint_value int64_of (get "timestamp_ns" action)) p.last_mouse_move)
              mouse_move_interval)
        refl
    where
      choose :
          (b : Bool)
          → (not (eqb p.last_mouse_move 0)
              && ltb
                  (elapsed (uint_value int64_of (get "timestamp_ns" action)) p.last_mouse_move)
                  mouse_move_interval)
            ≡ b
          → Spaces p (
              if b
              then drop
                  (record p { x = number_of (get "x" action); y = number_of (get "y" action) })
              else keep (object action) (record {
                last_mouse_move = uint_value int64_of (get "timestamp_ns" action);
                x = number_of (get "x" action);
                y = number_of (get "y" action);
              }))
      choose true e = refl
      choose false e =
          kept-Spaces p action (number_of (get "x" action)) (number_of (get "y" action)) m e

  other-Spaces :
      (p : Pointer) (action : Members)
      → (string_of (get "type" action) == "mouse_move") ≡ false
      → Spaces p (keep (object action) p)
  unfolding move_time
  other-Spaces p action m = rw m refl

  down-Spaces :
      (p : Pointer) (action : Members) (o : Option Members)
      → (string_of (get "type" action) == "mouse_move") ≡ false
      → Spaces p (elim o [
        | some released ↦
            fold (object (click_fields (string_of (get "button" action)) released p)) p
        | none ↦ keep (object action) p
      ])
  unfolding move_time click_fields
  down-Spaces p action none m = other-Spaces p action m
  down-Spaces p action (some released) m = (refl, refl)

  turn-Spaces : (p : Pointer) (v : Json) (next : Option Json) → Spaces p (turn int64_of p v next)
  unfolding turn move_time
  turn-Spaces p (object action) next =
      elim (Bool-cases (string_of (get "type" action) == "mouse_move")) [
        | inl m ↦ rw m (move-Spaces p action m)
        | inr m ↦ elim (Bool-cases (string_of (get "type" action) == "mouse_down")) [
          | inl d ↦ rw (m, d) (down-Spaces p action _ m)
          | inr d ↦ rw (m, d) (other-Spaces p action m)
        ]
      ]
  turn-Spaces p null next = refl
  turn-Spaces p (truth b) next = refl
  turn-Spaces p (number n) next = refl
  turn-Spaces p (text t) next = refl
  turn-Spaces p (array xs) next = refl

  IsSpaced-keep :
      (p q : Pointer) (w : Json) (ws : List Json)
      → AtTime p q (move_time int64_of w)
      → IsSpaced q.last_mouse_move (move_times int64_of ws)
      → IsSpaced p.last_mouse_move (move_times int64_of (w ∷ ws))
  unfolding move_times
  IsSpaced-keep p q w ws = go (move_time int64_of w)
    where
      go :
          (o : Option ℕ)
          → AtTime p q o
          → IsSpaced q.last_mouse_move (move_times int64_of ws)
          → IsSpaced p.last_mouse_move
              (elim o [ none ↦ move_times int64_of ws | some t ↦ t ∷ move_times int64_of ws ])
      go none a k = subst (λ l. IsSpaced l (move_times int64_of ws)) a k
      go (some t) a k = (a.1, subst (λ l. IsSpaced l (move_times int64_of ws)) a.0 k)

  Spaces-IsSpaced :
      (p : Pointer) (vs : List Json) (t : Turn)
      → Spaces p t
      → ((skip : Bool) (q : Pointer)
          → IsSpaced q.last_mouse_move (move_times int64_of (normalize_from int64_of skip q vs)))
      → IsSpaced p.last_mouse_move (
          move_times int64_of (elim t [
            | keep w q ↦ w ∷ normalize_from int64_of false q vs
            | drop q ↦ normalize_from int64_of false q vs
            | fold w q ↦ w ∷ normalize_from int64_of true q vs
          ]))
  Spaces-IsSpaced p vs (keep w q) k f = IsSpaced-keep p q w _ k (f false q)
  Spaces-IsSpaced p vs (drop q) k f =
      subst (λ l. IsSpaced l (move_times int64_of (normalize_from int64_of false q vs))) k
        (f false q)
  Spaces-IsSpaced p vs (fold w q) k f =
      IsSpaced-keep p q w _ (subst (AtTime p q) (sym k.0) k.1) (f true q)

  normalize_from-IsSpaced :
      (skip : Bool) (p : Pointer) (vs : List Json)
      → IsSpaced p.last_mouse_move (move_times int64_of (normalize_from int64_of skip p vs))
  unfolding normalize_from move_times
  normalize_from-IsSpaced skip p [] = tt
  normalize_from-IsSpaced true p (v ∷ vs) = normalize_from-IsSpaced false p vs
  normalize_from-IsSpaced false p (v ∷ vs) =
      Spaces-IsSpaced p vs (turn int64_of p v (head? vs)) (turn-Spaces p v (head? vs))
        (λ skip q. normalize_from-IsSpaced skip q vs)

  -- If a JSON number is read as an `int64`, then of two movements of the pointer that follow one
  -- another in the normalized actions the second is at least 100 ms after the first, unless the
  -- first is at time 0 or the second is before the first.
  pub normalize_actions-IsSpaced :
      (actions : List Json) → IsSpaced 0 (move_times int64_of (normalize_actions int64_of actions))
  unfolding normalize_actions
  normalize_actions-IsSpaced actions =
      normalize_from-IsSpaced false (record { last_mouse_move = 0; x = ""; y = "" }) actions
