-- ===== src/Io/Runs.antt =====
-- What holds behind a call that returns and behind one that raises, and how the operators of Io carry
-- it on.
use ansuman_gpu_inference_se.Prelude.{sym, subst}
use ansuman_gpu_inference_se.Io.{
  Exc, app, error, cancelled, Result, ok, raised, Io, pure, ◌>>=◌, try_except, finally,
}
use ansuman_gpu_inference_se.Io.Keeps.{Keeps}

module _ {W : Type 0} where
  abbrev pub After : {A : Type 0} → (A → W → Type 0) → (W → Type 0) → Result A → W → Type 0
  After Q R (ok a) w = Q a w
  After Q R (raised e) w = R w

  -- Started where `P` holds, the call returns an answer of which `Q` holds, or leaves `R` behind a
  -- raise.
  pub record Runs {A : Type 0} (P : W → Type 0) (m : Io W A) (Q : A → W → Type 0) (R : W → Type 0)
      : Type 0 where
    pub runs : (w : W) → P w → After Q R (m w).0 (m w).1

  abbrev pub Anything : W → Type 0
  Anything w = Unit {0}

  Anything-After : {A : Type 0} (r : Result A) (w : W) → After (λ a. Anything) Anything r w
  Anything-After (ok a) w = tt
  Anything-After (raised e) w = tt

  pub any-Runs : {A : Type 0} (P : W → Type 0) (m : Io W A) → Runs P m (λ a. Anything) Anything
  any-Runs P m = record { runs = λ w h. Anything-After (m w).0 (m w).1 }

  close-After :
      {A : Type 0} (Q : A → W → Type 0) (c : Result (Unit {0})) (r : Result A) (v : W)
      → After Q Anything r v
      → let (q, w') = finally (λ (v : W). (r, v)) (λ (v : W). (c, v)) v in After Q Anything q w'
  close-After Q (ok _) (ok a) v h = h
  close-After Q (ok _) (raised e) v h = tt
  close-After Q (raised x) r v h = tt

  carried-After :
      {A : Type 0} (Q : A → W → Type 0) (R : W → Type 0) (cleanup : Io W (Unit {0}))
      → ((a : A) (w : W) → Q a w → Q a (cleanup w).1)
      → (r : Result A) (w : W) → After Q R r w
      → After Q Anything r (cleanup w).1
  carried-After Q R cleanup keeps (ok a) w h = keeps a w h
  carried-After Q R cleanup keeps (raised e) w h = tt

  finally-After :
      {A : Type 0} (Q : A → W → Type 0) (R : W → Type 0) (cleanup : Io W (Unit {0}))
      → ((a : A) (w : W) → Q a w → Q a (cleanup w).1)
      → (r : Result A) (w : W) → After Q R r w
      → let (q, w') = finally (λ (v : W). (r, v)) cleanup w in After Q Anything q w'
  finally-After Q R cleanup keeps r w h =
      close-After Q (cleanup w).0 r (cleanup w).1 (carried-After Q R cleanup keeps r w h)

  module _ {A : Type 0} {Q : A → W → Type 0} {R : W → Type 0} where
    pub pure-Runs : {P : W → Type 0} (a : A) → ((w : W) → P w → Q a w) → Runs P (pure a) Q R
    pure-Runs a h = record { runs = h }

    module _ {B : Type 0} {Q' : B → W → Type 0} where
      bind-After :
          (f : A → Io W B)
          → ((a : A) → Runs (Q a) (f a) Q' R)
          → (r : Result A) (w : W) → After Q R r w
          → let (q, w') = ((λ (v : W). (r, v)) >>= f) w in After Q' R q w'
      bind-After f k (ok a) w h = (k a).runs w h
      bind-After f k (raised e) w h = h

      pub bind-Runs :
          {P : W → Type 0} {m : Io W A} {f : A → Io W B}
          → Runs P m Q R
          → ((a : A) → Runs (Q a) (f a) Q' R)
          → Runs P (m >>= f) Q' R
      bind-Runs {P} {m} {f} h k = record {
        runs = λ w p. bind-After f k (m w).0 (m w).1 (h.runs w p);
      }

    module _ {S : W → Type 0} where
      try_except-After :
          (f : Exc → Io W A)
          → ((e : Exc) → Runs R (f e) Q S)
          → ((w : W) → R w → S w)
          → (r : Result A) (w : W) → After Q R r w
          → let (q, w') = try_except (λ (v : W). (r, v)) f w in After Q S q w'
      try_except-After f k out (ok a) w h = h
      try_except-After f k out (raised (app e)) w h = (k (app e)).runs w h
      try_except-After f k out (raised (error s)) w h = (k (error s)).runs w h
      try_except-After f k out (raised cancelled) w h = out w h

      pub try_except-Runs :
          {P : W → Type 0} {m : Io W A} {f : Exc → Io W A}
          → Runs P m Q R
          → ((e : Exc) → Runs R (f e) Q S)
          → ((w : W) → R w → S w)
          → Runs P (try_except m f) Q S
      try_except-Runs {P} {m} {f} h k out = record {
        runs = λ w p. try_except-After f k out (m w).0 (m w).1 (h.runs w p);
      }

    -- A cleanup that leaves what the answer says is run last.
    pub finally-Runs :
        {P : W → Type 0} {m : Io W A} (cleanup : Io W (Unit {0}))
        → Runs P m Q R
        → ((a : A) (w : W) → Q a w → Q a (cleanup w).1)
        → Runs P (finally m cleanup) Q Anything
    finally-Runs {P} {m} cleanup h keeps = record {
      runs = λ w p. finally-After Q R cleanup keeps (m w).0 (m w).1 (h.runs w p);
    }

  module _ {M : Type 0} (measure : W → M) (T U : M → Type 0) (out : (x : M) → T x → U x) where
    kept-After :
        {A : Type 0} (r : Result A) (w : W)
        → T (measure w)
        → After (λ (a : A) v. T (measure v)) (λ v. U (measure v)) r w
    kept-After (ok a) w h = h
    kept-After (raised e) w h = out (measure w) h

    -- A call that keeps the measure leaves what holds of it, however it ends.
    pub Keeps-Runs :
        {A : Type 0} {m : Io W A}
        → Keeps measure m
        → Runs (λ w. T (measure w)) m (λ a w. T (measure w)) (λ w. U (measure w))
    Keeps-Runs {A} {m} k = record {
      runs = λ w h. kept-After (m w).0 (m w).1 (subst T (sym (k.keeps w)) h);
    }
