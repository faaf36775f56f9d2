-- ===== src/Prelude/Fallible.antt =====
-- Go functions that return `(value, error)` and change nothing, in sequence.
use mathlib.Core.Option.{Option, none, some}
use mathlib.Core.List.{List, [], ◌∷◌}
use openiotrsp.Prelude.Action.{Result, ok, err, on_ok, Error}

module _ {ℓ κ} {A : Type ℓ} {B : Type κ} where
  infixl 5 ◌>>=◌ ◌>>◌
  abbrev pub ◌>>=◌ : Result A → (A → Result B) → Result B
  ◌>>=◌ = on_ok

  abbrev pub ◌>>◌ : Result A → Result B → Result B
  m >> n = on_ok m (λ _. n)

  -- `if child != nil { value, err := read(child); …; out.Field = &value }`
  abbrev pub optional : (A → Result B) → Option A → Result (Option B)
  optional read none = ok none
  optional read (some child) = on_ok (read child) (λ value. ok (some value))

  -- `for _, child := range children { …; out = append(out, value) }`
  abbrev pub each : (A → Result B) → List A → Result (List B)
  each read [] = ok []
  each read (child ∷ rest) =
      on_ok (read child) (λ value. on_ok (each read rest) (λ values. ok (value ∷ values)))

  -- `if x == nil { return …, error }`
  abbrev pub required : Error → (A → Result B) → Option A → Result B
  required e read none = err e
  required e read (some value) = read value
