-- ===== src/Io.antt =====
-- Effects and exceptions of the Python code, and `AppError` (backend/core/errors.py). A call runs on
-- a world `W`, which holds what it reads and changes, and returns or raises; what was changed
-- before a raise stays changed.
pub mod Keeps
pub mod Runs
use ansuman_gpu_inference_se.Prelude.{
  ℕ, String, Option, Bool, true, false, ◌≡◌, refl, ◌⊎◌, inl, inr,
}

-- `AppError`
pub record AppError : Type 0 where
  pub message : String
  pub code : String
  pub status_code : ℕ
  pub type : String
  pub param : Option String

-- An `AppError`, another exception with its text, or `asyncio.CancelledError`, which is no
-- `Exception` and so passes by every `except Exception`.
pub data Exc : Type 0 where
  app : AppError → Exc
  error : String → Exc
  cancelled : Exc

pub data Result {ℓ} (A : Type ℓ) : Type ℓ where
  ok : A → Result A
  raised : Exc → Result A

abbrev pub Io : Type 0 → Type 0 → Type 0
Io W A = W → Result A × W

-- What a call returned, with the object whose method it was beside the world.
abbrev pub within : {O W A : Type 0} → O → Result A × W → Result A × (O × W)
within o (r, w) = (r, (o, w))

module _ {W : Type 0} where
  abbrev pub pure : {A : Type 0} → A → Io W A
  pure a w = (ok a, w)

  abbrev pub raise : {A : Type 0} → Exc → Io W A
  raise e w = (raised e, w)

  abbrev pub lift : {A : Type 0} → Result A → Io W A
  lift r w = (r, w)

  infixl 5 ◌>>=◌ ◌>>◌
  abbrev pub ◌>>=◌ : {A B : Type 0} → Io W A → (A → Io W B) → Io W B
  ◌>>=◌ m f w = let (r, w') = m w in elim r [ ok a ↦ f a w' | raised e ↦ (raised e, w') ]

  abbrev pub ◌>>◌ : {A B : Type 0} → Io W A → Io W B → Io W B
  m >> k = m >>= λ _. k

  -- `try: m / except BaseException as exc: handler(exc)`
  abbrev pub handle : {A : Type 0} → Io W A → (Exc → Io W A) → Io W A
  handle m h w = let (r, w') = m w in elim r [ ok a ↦ (ok a, w') | raised e ↦ h e w' ]

  abbrev pub if_exception : {A : Type 0} → (Exc → Io W A) → Exc → Io W A
  if_exception h cancelled = raise cancelled
  if_exception h e = h e

  -- `try: m / except Exception as exc: handler(exc)`
  abbrev pub try_except : {A : Type 0} → Io W A → (Exc → Io W A) → Io W A
  try_except m h = handle m (if_exception h)

  -- `try: m / finally: cleanup`. What `cleanup` raises replaces the outcome of `m`.
  abbrev pub finally : {A : Type 0} → Io W A → Io W (Unit {0}) → Io W A
  finally m cleanup w =
      let (r, w') = m w in
      let (c, w'') = cleanup w' in elim c [ ok _ ↦ (r, w'') | raised e ↦ (raised e, w'') ]

-- `str(exc)`. Every `AppError` of the program is built from keyword arguments, so its `args` are
-- empty, and `str` of an exception with no `args` is the empty text.
abbrev pub str_exc : Exc → String
str_exc (app e) = ""
str_exc (error s) = s
str_exc cancelled = ""

-- `getattr(exc, "code", default)`
abbrev pub code_or : Exc → String → String
code_or (app e) d = e.code
code_or _ d = d

-- The call did not return.
abbrev pub is_raised {ℓ} : {A : Type ℓ} → Result A → Bool
is_raised (ok _) = false
is_raised (raised _) = true

pub Result-cases {ℓ} :
    {A : Type ℓ} (r : Result A) → ((a : A) × (r ≡ ok a)) ⊎ ((e : Exc) × (r ≡ raised e))
Result-cases (ok a) = inl (a, refl)
Result-cases (raised e) = inr (e, refl)
