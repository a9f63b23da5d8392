-- ===== src/RateLimit/Redis.antt =====
-- The Redis commands that the program calls (`RedisLike` in backend/db/redis.py), as an interface:
-- the server and its driver are not part of the repository. `CounterLaws` states what the command
-- reference documents of the counters.
use ansuman_gpu_inference_se.Prelude.{
  ℤ, pos, negsuc, ◌+ℤ◌, ◌-ℤ◌, String, ◌≡◌, Option, List, [], ◌∷◌, Bool, true, false, ◌=?◌,
  if◌then◌else◌,
}
use ansuman_gpu_inference_se.Io.{Result, ok, raised, is_raised, Io}

pub record RedisLike (W : Type 0) : Type 0 where
  pub ping : Io W Bool
  pub get : String → Io W (Option String)
  pub incr : String → Io W ℤ
  pub incrby : String → ℤ → Io W ℤ
  pub decr : String → Io W ℤ
  pub decrby : String → ℤ → Io W ℤ
  pub expire : String → ℤ → Io W (Unit {0})
  pub delete : List String → Io W ℤ
  pub rpush : String → String → Io W ℤ
  pub lpop : String → Io W (Option String)
  pub lrange : String → ℤ → ℤ → Io W (List String)

-- The reply of a command that answers `v` unless it fails.
abbrev pub answer {ℓ} : {A : Type ℓ} → Result A → A → Result A
answer (ok _) v = ok v
answer (raised e) v = raised e

-- INCRBY adds to the counter of one key, an absent key counting from 0, and answers the new value;
-- INCR, DECR and DECRBY are the same with another amount; DEL forgets the key; EXPIRE and GET
-- change no counter. `executed` and `deleted` say whether the server executed a command: it did where
-- the command answered, and a command that raises, such as one that times out, may have been executed
-- or not.
pub record CounterLaws {W : Type 0} (r : RedisLike W) (counter : W → String → ℤ) : Type 0 where
  pub incrby_reply :
      (k : String) (n : ℤ) (w : W)
      → (r.incrby k n w).0 ≡ answer (r.incrby k n w).0 (counter w k +ℤ n)
  pub executed : String → ℤ → W → Bool
  pub executed_ok :
      (k : String) (n : ℤ) (w : W) → is_raised (r.incrby k n w).0 ≡ false → executed k n w ≡ true
  pub incrby_counter :
      (k : String) (n : ℤ) (w : W) (j : String)
      → counter (r.incrby k n w).1 j
        ≡ (if executed k n w then if k =? j then counter w k +ℤ n else counter w j else counter w j)
  pub incr_lem : (k : String) (w : W) → r.incr k w ≡ r.incrby k (pos 1) w
  pub decr_lem : (k : String) (w : W) → r.decr k w ≡ r.incrby k (negsuc 0) w
  pub decrby_lem : (k : String) (n : ℤ) (w : W) → r.decrby k n w ≡ r.incrby k (pos 0 -ℤ n) w
  pub deleted : String → W → Bool
  pub deleted_ok :
      (k : String) (w : W) → is_raised (r.delete (k ∷ []) w).0 ≡ false → deleted k w ≡ true
  pub delete_counter :
      (k : String) (w : W) (j : String)
      → counter (r.delete (k ∷ []) w).1 j
        ≡ (if deleted k w then if k =? j then pos 0 else counter w j else counter w j)
  pub expire_counter :
      (k : String) (t : ℤ) (w : W) (j : String) → counter (r.expire k t w).1 j ≡ counter w j
  pub get_counter : (k : String) (w : W) (j : String) → counter (r.get k w).1 j ≡ counter w j
