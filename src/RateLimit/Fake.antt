-- ===== src/RateLimit/Fake.antt =====
-- A Redis server for tests, after `FakeRedis` in tests/conftest.py: counters and texts by key, and a
-- switch that makes every command fail. It meets the documented laws.
use ansuman_gpu_inference_se.Prelude.{
  ℤ, pos, negsuc, ◌+ℤ◌, ◌-ℤ◌, String, ◌≡◌, refl, Bool, true, false, not, Option, none, some, List,
  [], ◌∷◌, arith, ◌=?◌, lookup, insert, remove, lookup-insert, lookup-remove, if◌then◌else◌,
}
use ansuman_gpu_inference_se.Io.{error, ok, raised, is_raised, Io}
use ansuman_gpu_inference_se.RateLimit.Redis.{RedisLike, CounterLaws, answer}

pub record Fake : Type 0 where
  pub values : List (String × ℤ)
  pub texts : List (String × String)
  pub fail : Bool

abbrev zero_if_absent : Option ℤ → ℤ
zero_if_absent none = pos 0
zero_if_absent (some v) = v

unfoldable pub counter : Fake → String → ℤ
unfolding lookup
counter w k = zero_if_absent (lookup k w.values)

abbrev served : {A : Type 0} → A → Fake → Io Fake A
served a w' w = if w.fail then (raised (error "redis unavailable"), w) else (ok a, w')

unfoldable pub incrby : String → ℤ → Io Fake ℤ
unfolding counter insert
incrby k n w = let v = counter w k +ℤ n in served v (record w { values = insert k v w.values }) w

unfoldable pub delete : List String → Io Fake ℤ
unfolding remove
delete [] w = served (pos 0) w w
delete (k ∷ ks) w = served (pos 1) (record w { values = remove k w.values }) w

unfoldable pub get : String → Io Fake (Option String)
unfolding lookup
get k w = served (lookup k w.texts) w w

unfoldable pub expire : String → ℤ → Io Fake (Unit {0})
expire k t w = served tt w w

abbrev pub fake : RedisLike Fake
fake = record {
  ping = λ w. served true w w;
  get = get;
  incr = λ k. incrby k (pos 1);
  incrby = incrby;
  decr = λ k. incrby k (negsuc 0);
  decrby = λ k n. incrby k (pos 0 -ℤ n);
  expire = expire;
  delete = delete;
  rpush = λ k v w. served (pos 1) w w;
  lpop = λ k w. served none w w;
  lrange = λ k a b w. served [] w w;
}

incrby_reply :
    (k : String) (n : ℤ) (w : Fake) → (incrby k n w).0 ≡ answer (incrby k n w).0 (counter w k +ℤ n)
unfolding incrby
incrby_reply k n w = ground arith

executed_ok :
    (k : String) (n : ℤ) (w : Fake) → is_raised (incrby k n w).0 ≡ false → not w.fail ≡ true
unfolding incrby
executed_ok k n w h = ground (arith, h)

incrby_counter :
    (k : String) (n : ℤ) (w : Fake) (j : String)
    → counter (incrby k n w).1 j
      ≡ (if not w.fail then if k =? j then counter w k +ℤ n else counter w j else counter w j)
incrby_counter k n w j =
    unfold incrby counter in ground (arith, lookup-insert k j (counter w k +ℤ n) w.values)

deleted_ok : (k : String) (w : Fake) → is_raised (delete (k ∷ []) w).0 ≡ false → not w.fail ≡ true
unfolding delete
deleted_ok k w h = ground (arith, h)

delete_counter :
    (k : String) (w : Fake) (j : String)
    → counter (delete (k ∷ []) w).1 j
      ≡ (if not w.fail then if k =? j then pos 0 else counter w j else counter w j)
delete_counter k w j = unfold delete counter in ground (arith, lookup-remove k j w.values)

expire_counter :
    (k : String) (t : ℤ) (w : Fake) (j : String) → counter (expire k t w).1 j ≡ counter w j
unfolding expire
expire_counter k t w j = ground arith

get_counter : (k : String) (w : Fake) (j : String) → counter (get k w).1 j ≡ counter w j
unfolding get
get_counter k w j = ground arith

pub fake_laws : CounterLaws fake counter
fake_laws = record {
  incrby_reply = incrby_reply;
  executed = λ k n w. not w.fail;
  executed_ok = executed_ok;
  incrby_counter = incrby_counter;
  incr_lem = λ k w. refl;
  decr_lem = λ k w. refl;
  decrby_lem = λ k n w. refl;
  deleted = λ k w. not w.fail;
  deleted_ok = deleted_ok;
  delete_counter = delete_counter;
  expire_counter = expire_counter;
  get_counter = get_counter;
}
