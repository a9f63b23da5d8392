-- ===== src/Io/Keeps.antt =====
-- Calls that leave what is read off the world as it was, and how the operators of Io keep it.
use ansuman_gpu_inference_se.Prelude.{ℕ, ◌-◌, ◌≡◌, refl, ap, ◌∙◌, false, arith}
use ansuman_gpu_inference_se.Io.{
  Exc, app, error, cancelled, Result, ok, raised, Io, pure, raise, lift, ◌>>=◌, ◌>>◌, handle,
  if_exception, try_except, finally, is_raised,
}

-- A call that returns, or raises, decides what follows it.
pub bind_ok :
    {W A B : Type 0} (m : Io W A) (f : A → Io W B) (w : W) {a : A}
    → (m w).0 ≡ ok a
    → (m >>= f) w ≡ f a (m w).1
bind_ok m f w e = rw (e, ◌>>=◌) refl

pub bind_raised :
    {W A B : Type 0} (m : Io W A) (f : A → Io W B) (w : W) {e : Exc}
    → (m w).0 ≡ raised e
    → (m >>= f) w ≡ (raised e, (m w).1)
bind_raised m f w h = rw (h, ◌>>=◌) refl

module _ {W M : Type 0} (measure : W → M) where
  pub record Keeps {A : Type 0} (m : Io W A) : Type 0 where
    pub keeps : (w : W) → measure (m w).1 ≡ measure w

  module _ {A : Type 0} where
    pub pure-Keeps : (a : A) → Keeps (pure a)
    pure-Keeps a = record { keeps = λ w. refl }

    pub raise-Keeps : (e : Exc) → Keeps (raise {A = A} e)
    raise-Keeps e = record { keeps = λ w. refl }

    pub lift-Keeps : (r : Result A) → Keeps (lift r)
    lift-Keeps r = record { keeps = λ w. refl }

    module _ {B : Type 0} where
      bind_at :
          (f : A → Io W B)
          → ((a : A) → Keeps (f a))
          → (r : Result A) (w' : W) (n : M) → measure w' ≡ n
          → measure (((λ v. (r, v)) >>= f) w').1 ≡ n
      bind_at f k (ok a) w' n h = (k a).keeps w' ∙ h
      bind_at f k (raised e) w' n h = h

      pub bind-Keeps :
          {m : Io W A} {f : A → Io W B} → Keeps m → ((a : A) → Keeps (f a)) → Keeps (m >>= f)
      bind-Keeps {m} {f} h k = record {
        keeps = λ w. bind_at f k (m w).0 (m w).1 (measure w) (h.keeps w);
      }

      pub then-Keeps : {m : Io W A} {n : Io W B} → Keeps m → Keeps n → Keeps (m >> n)
      then-Keeps h k = bind-Keeps h (λ _. k)

    handle_at :
        (f : Exc → Io W A)
        → ((e : Exc) → Keeps (f e))
        → (r : Result A) (w' : W) (n : M) → measure w' ≡ n
        → measure (handle (λ v. (r, v)) f w').1 ≡ n
    handle_at f k (ok a) w' n h = h
    handle_at f k (raised e) w' n h = (k e).keeps w' ∙ h

    if_exception-Keeps :
        {f : Exc → Io W A} → ((e : Exc) → Keeps (f e)) → (e : Exc) → Keeps (if_exception f e)
    if_exception-Keeps k (app e) = k (app e)
    if_exception-Keeps k (error s) = k (error s)
    if_exception-Keeps k cancelled = raise-Keeps cancelled

    pub try_except-Keeps :
        {m : Io W A} {f : Exc → Io W A}
        → Keeps m
        → ((e : Exc) → Keeps (f e))
        → Keeps (try_except m f)
    try_except-Keeps {m} {f} h k = record {
      keeps = λ w.
          handle_at (if_exception f) (if_exception-Keeps k) (m w).0 (m w).1 (measure w) (h.keeps w);
    }

    -- A handler that keeps the measure leaves what the body left.
    pub measure-try_except :
        (m : Io W A) (f : Exc → Io W A) (w : W) (n : M)
        → ((e : Exc) → Keeps (f e))
        → measure (m w).1 ≡ n
        → measure (try_except m f w).1 ≡ n
    measure-try_except m f w n k h =
        handle_at (if_exception f) (if_exception-Keeps k) (m w).0 (m w).1 n h

    finally_at :
        (c : Result (Unit {0})) (r : Result A) (w' : W)
        → measure (finally (λ v. (r, v)) (λ v. (c, v)) w').1 ≡ measure w'
    finally_at (ok tt) r w' = refl
    finally_at (raised e) r w' = refl

    -- A cleanup runs however the call ends, and last.
    pub measure-finally :
        (m : Io W A) (cleanup : Io W (Unit {0})) (w : W)
        → measure (finally m cleanup w).1 ≡ measure (cleanup (m w).1).1
    measure-finally m cleanup w = finally_at (cleanup (m w).1).0 (m w).0 (cleanup (m w).1).1

-- The call always returns.
pub record Returns {W A : Type 0} (m : Io W A) : Type 0 where
  pub returns : (w : W) → is_raised (m w).0 ≡ false

pub returned_at : {A : Type 0} (r : Result A) → is_raised r ≡ false → (a : A) × (r ≡ ok a)
returned_at (ok a) h = (a, refl)
returned_at (raised e) h = ground (arith, h)

module _ {W : Type 0} where
  pub then_returned :
      {A B : Type 0} {m : Io W A} (k : Io W B) → Returns m → (w : W) → (m >> k) w ≡ k (m w).1
  then_returned {m} k h w = let (a, e) = returned_at (m w).0 (h.returns w) in bind_ok m (λ _. k) w e

  pub then-Returns :
      {A B : Type 0} {m : Io W A} {k : Io W B} → Returns m → Returns k → Returns (m >> k)
  then-Returns {m} {k} h n = record {
    returns = λ w. ap (λ p. is_raised p.0) (then_returned k h w) ∙ n.returns (m w).1;
  }

module _ {W : Type 0} (measure : W → ℕ) where
  -- The call takes one from the measure.
  pub record Lowers {A : Type 0} (m : Io W A) : Type 0 where
    pub lowers : (w : W) → measure (m w).1 ≡ measure w - 1

  module _ {A B : Type 0} where
    pub then-Lowers :
        {m : Io W A} {k : Io W B} → Keeps measure m → Returns m → Lowers k → Lowers (m >> k)
    then-Lowers {m} {k} h n l = record {
      lowers = λ w.
          ap (λ p. measure p.1) (then_returned k n w)
          ∙ l.lowers (m w).1
          ∙ ap (λ n. n - 1) (h.keeps w);
    }

    lowers_at :
        (k : Io W B)
        → Keeps measure k
        → (r : Result A) (w' : W) (n : ℕ) → measure w' ≡ n
        → measure (((λ (v : W). (r, v)) >> k) w').1 ≡ n
    lowers_at k h (ok a) w' n e = h.keeps w' ∙ e
    lowers_at k h (raised x) w' n e = e

    pub Lowers-then : {m : Io W A} {k : Io W B} → Lowers m → Keeps measure k → Lowers (m >> k)
    Lowers-then {m} {k} l h = record {
      lowers = λ w. lowers_at k h (m w).0 (m w).1 (measure w - 1) (l.lowers w);
    }
