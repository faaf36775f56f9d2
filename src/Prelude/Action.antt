-- ===== src/Prelude/Action.antt =====
-- Go functions that return `(value, error)` and change a store. What was written before an error
-- stays written, so the store comes back beside the error too.
use mathlib.Core.Path.{◌≡◌, refl}
use mathlib.Core.Option.{Option, none, some}
use openiotrsp.Prelude.Equality.{Bytes}

-- `not_found` is storage.ErrNotFound, the next four are the sentinels of euiccpkg; the other errors
-- carry their text.
pub data Error : Type 0 where
  not_found signature_invalid transaction_mismatch counter_mismatch result_not_found : Error
  context_error invalid_input encoding_error : Bytes → Error

pub data Result {ℓ} (A : Type ℓ) : Type ℓ where
  ok : A → Result A
  err : Error → Result A

-- `v, err := r; if err != nil { return err }`
abbrev pub on_ok {ℓ κ} : {A : Type ℓ} {B : Type κ} → Result A → (A → Result B) → Result B
on_ok (ok a) f = f a
on_ok (err e) f = err e

-- What errors and every continuation satisfy, the whole satisfies.
pub on_ok_keeps {ℓ κ μ} :
    {A : Type ℓ} {B : Type κ} (P : Result B → Type μ) (r : Result A) (f : A → Result B)
    → ((e : Error) → P (err e))
    → ((a : A) → r ≡ ok a → P (f a))
    → P (on_ok r f)
on_ok_keeps P (ok a) f failed passed = passed a refl
on_ok_keeps P (err e) f failed passed = failed e

-- The error that `ctx.Err()` returns.
pub record Context : Type 0 where
  pub ctx_err : Option Error

abbrev pub Action {ℓ κ} : Type ℓ → Type κ → Type (ℓ ⊔ κ)
Action S A = S → Result A × S

module _ {ℓ κ} {S : Type ℓ} {A : Type κ} where
  abbrev pub pure : A → Action S A
  pure a s = (ok a, s)

  abbrev pub fail : Error → Action S A
  fail e s = (err e, s)

  abbrev pub lift : Result A → Action S A
  lift r s = (r, s)

  abbrev pub unless : Option Error → Action S A → Action S A
  unless none body s = body s
  unless (some e) body s = (err e, s)

  unless_keeps {μ} :
      (P : S → Type μ) (o : Option Error) (body : Action S A) (s : S)
      → P s
      → P (body s).1
      → P (unless o body s).1
  unless_keeps P none body s h k = k
  unless_keeps P (some e) body s h k = h

  -- `if err := ctx.Err(); err != nil { return …, err }`
  abbrev pub checked : Context → Action S A → Action S A
  checked ctx = unless ctx.ctx_err

  -- A property of the store that the body keeps is kept by the checked body.
  pub checked_keeps {μ} :
      (P : S → Type μ) (ctx : Context) (body : Action S A) (s : S)
      → P s
      → P (body s).1
      → P (checked ctx body s).1
  checked_keeps P ctx body s h k = unless_keeps P ctx.ctx_err body s h k

module _ {ℓ κ μ} {S : Type ℓ} {A : Type κ} {B : Type μ} where
  abbrev pub after : Result A × S → (A → Action S B) → Result B × S
  after (ok a, s) f = f a s
  after (err e, s) f = (err e, s)

  infixl 5 ◌>>=◌ ◌>>◌
  abbrev pub ◌>>=◌ : Action S A → (A → Action S B) → Action S B
  ◌>>=◌ m f s = after (m s) f

  abbrev pub ◌>>◌ : Action S A → Action S B → Action S B
  m >> n = m >>= λ _. n

  -- What errors and every continuation satisfy, the whole satisfies.
  pub after_keeps {ν} :
      (P : Result B × S → Type ν) (x : Result A × S) (f : A → Action S B)
      → ((e : Error) (r : S) → P (err e, r))
      → ((a : A) (r : S) → x ≡ (ok a, r) → P (f a r))
      → P (after x f)
  after_keeps P (ok a, r) f failed passed = passed a r refl
  after_keeps P (err e, r) f failed passed = failed e r
