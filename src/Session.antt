-- ===== src/Session.antt =====
-- Database sessions: `session_scope` of backend/db/postgres.py as its callers use it, in
-- `async for session in session_scope(...)`. The database and SQLAlchemy are not part of the
-- repository: a world `W` holds what is committed, and `T` what a session sees and has flushed.
use ansuman_gpu_inference_se.Prelude.{String, ◌≡◌, refl, ap, Option, none, some}
use ansuman_gpu_inference_se.Io.{Result, ok, raised, Io}

-- A sessionmaker: a session begins with what is committed, and a commit writes what it flushed.
pub record Sessions (W T : Type 0) : Type 0 where
  pub begin : W → T
  pub commit : T → Io W (Unit {0})

-- One table as a session sees it, by primary key.
pub record Table (T Row : Type 0) : Type 0 where
  pub find : T → String → Option Row
  -- `add` or an attribute write, and `flush`
  pub save : String → Row → T → T

-- How the body of the `async for` ends: by `return`, or by running to its end.
pub data Exit (A : Type 0) : Type 0 where
  returned : A → Exit A
  completed : Exit A

-- The `async for`, where `none` says that it ran to its end. Only a body that runs to its end resumes
-- the generator behind its `yield`, where it commits. A body that returns or raises leaves the loop;
-- the generator is closed at the `yield` by `GeneratorExit`, which is no `Exception`, and the session
-- is closed with its transaction rolled back.
module _ {W T A : Type 0} (sessions : Sessions W T) where
  after_body : Result (Exit A) × T → Io W (Option A)
  after_body (ok (returned a), t) w = (ok (some a), w)
  after_body (ok completed, t) w =
      let (r, w') = sessions.commit t w in
      elim r [ ok _ ↦ (ok none, w') | raised e ↦ (raised e, w') ]
  after_body (raised e, t) w = (raised e, w)

  unfoldable pub session_scope : Io T (Exit A) → Io W (Option A)
  unfolding after_body
  session_scope body w = after_body (body (sessions.begin w)) w

  -- A body that returns leaves the loop with its answer, and nothing is committed.
  pub session_scope_returned :
      (body : Io T (Exit A)) (a : A) (w : W)
      → (body (sessions.begin w)).0 ≡ ok (returned a)
      → session_scope body w ≡ (ok (some a), w)
  unfolding session_scope
  session_scope_returned body a w h = ap (λ r. after_body (r, (body (sessions.begin w)).1) w) h

  -- Every way in which a body never runs to its end.
  abbrev pub NeverCompletes : Io T (Exit A) → Type 0
  NeverCompletes body = (t : T) → (body t).0 ≡ ok completed → ⊥

  after_body_unchanged :
      (r : Result (Exit A)) (t : T) (w : W) → (r ≡ ok completed → ⊥) → (after_body (r, t) w).1 ≡ w
  unfolding after_body
  after_body_unchanged (ok (returned a)) t w h = refl
  after_body_unchanged (ok completed) t w h = absurd (h refl)
  after_body_unchanged (raised e) t w h = refl

  -- A session whose body leaves the loop by `return` or by an exception commits nothing.
  pub session_scope_unchanged :
      (body : Io T (Exit A)) → NeverCompletes body → (w : W) → (session_scope body w).1 ≡ w
  unfolding session_scope
  session_scope_unchanged body h w =
      let (r, t) = body (sessions.begin w) in after_body_unchanged r t w (h (sessions.begin w))
