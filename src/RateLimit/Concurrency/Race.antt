-- ===== src/RateLimit/Concurrency/Race.antt =====
-- The slots of one API key under concurrent requests: `acquire` and `release` of
-- backend/services/rate_limit/concurrency_limiter.py, cut at their Redis commands, each of which is
-- atomic and answers. Requests are alike, so a state counts those that stand at each point.
use ansuman_gpu_inference_se.Prelude.{
  ℕ, zero, suc, ◌+◌, ◌-◌, ℤ, pos, negsuc, ◌+ℤ◌, ◌≤ℤ◌, ltb_ℤ, leb_ℤ, ltb, ◌≡◌, refl, ◌⊎◌, Option,
  none, some, arith, if◌then◌else◌, subst,
}

pub record Slots : Type 0 where
  pub counter : ℤ
  -- over the limit, before the DECR that rolls back
  pub rolling : ℕ
  -- behind a DECR that answered 0 or less, before the DEL
  pub dropping : ℕ
  -- with a lease that is not released
  pub holding : ℕ

pub data Move : Type 0 where
  take_slot roll_back give_back forget : Move

abbrev pub no_requests : Slots
no_requests = record { counter = pos 0; rolling = 0; dropping = 0; holding = 0 }

-- One command of one request; `none` where no request stands before that command.
unfoldable pub step : ℤ → Move → Slots → Option Slots
step limit take_slot s =
    let count = s.counter +ℤ pos 1 in
    some (
      if ltb_ℤ limit count
      then record s { counter = count; rolling = s.rolling + 1 }
      else record s { counter = count; holding = s.holding + 1 })
step limit roll_back s =
    if ltb 0 s.rolling
    then some (record s { counter = s.counter +ℤ negsuc 0; rolling = s.rolling - 1 })
    else none
step limit give_back s =
    let remaining = s.counter +ℤ negsuc 0 in
    if ltb 0 s.holding
    then some (record s {
      counter = remaining;
      holding = s.holding - 1;
      dropping = if leb_ℤ remaining (pos 0) then s.dropping + 1 else s.dropping;
    })
    else none
step limit forget s =
    if ltb 0 s.dropping
    then some (record s { counter = pos 0; dropping = s.dropping - 1 })
    else none

-- What some interleaving of requests reaches.
pub data Reach (limit : ℤ) : Slots → Type 0 where
  start : Reach limit no_requests
  next : {s t : Slots} → Reach limit s → (m : Move) → step limit m s ≡ some t → Reach limit t

-- The same where no request takes a slot between another's DECR and DEL.
pub data CalmReach (limit : ℤ) : Slots → Type 0 where
  calm_start : CalmReach limit no_requests
  calm_next :
      {s t : Slots}
      → CalmReach limit s
      → (m : Move) → (m ≡ take_slot → s.dropping ≡ 0)
      → step limit m s ≡ some t
      → CalmReach limit t

pub record IsCounted (limit : ℤ) (s : Slots) : Type 0 where
  pub counted : s.counter ≡ pos (s.rolling + s.holding)
  pub empty : (s.dropping ≡ 0) ⊎ (s.rolling + s.holding ≡ 0)
  pub within : pos s.holding ≤ℤ limit

step-IsCounted :
    (limit : ℤ) (m : Move) {s t : Slots}
    → (m ≡ take_slot → s.dropping ≡ 0)
    → step limit m s ≡ some t
    → IsCounted limit s
    → IsCounted limit t
unfolding step ◌+ℤ◌
step-IsCounted limit take_slot calm e h = let d = calm refl in ground (arith, d)
step-IsCounted limit _ calm e h = ground arith

-- As long as no slot is taken between a DECR and its DEL, at most `limit` leases are out at once,
-- and the counter is the number of leases and of refusals not yet rolled back.
pub CalmReach-IsCounted :
    {limit : ℤ} {s : Slots} → pos 0 ≤ℤ limit → CalmReach limit s → IsCounted limit s
CalmReach-IsCounted h calm_start = ground arith
CalmReach-IsCounted {limit} h (calm_next r m calm e) =
    step-IsCounted limit m calm e (CalmReach-IsCounted h r)

abbrev held : ℕ → ℕ → Slots
held c n = record { counter = pos c; rolling = 0; dropping = 0; holding = n }

-- `k` more requests take a slot each while the counter stays within the limit.
take_many :
    (k c n : ℕ) {limit : ℤ}
    → pos (c + k) ≤ℤ limit
    → Reach limit (held c n)
    → Reach limit (held (c + k) (n + k))
unfolding step ◌+ℤ◌
take_many zero c n {limit} h r = subst (Reach limit) (ground arith) r
take_many (suc k) c n {limit} h r =
    let one : step limit take_slot (held c n) ≡ some (held (c + 1) (n + 1)) = ground arith in
    subst (Reach limit) (ground arith)
      (take_many k (c + 1) (n + 1) (omega arith) (next r take_slot one))

-- After a DECR that answered 0, a request that takes a slot before the DEL loses it from the counter.
lost_slot : (n : ℕ) → Reach (pos (suc n)) (held 0 1)
unfolding step ◌+ℤ◌
lost_slot n =
    let limit = pos (suc n) in
    let after_decr : Slots = record { counter = pos 0; rolling = 0; dropping = 1; holding = 0 } in
    let before_del : Slots = record { counter = pos 1; rolling = 0; dropping = 1; holding = 1 } in
    let r1 : Reach limit (held 1 1) = next start take_slot (ground arith) in
    let r2 : Reach limit after_decr = next r1 give_back (ground arith) in
    let r3 : Reach limit before_del = next r2 take_slot (ground arith) in
    next r3 forget (ground arith)

-- Whatever the positive limit, some interleaving hands out one lease more than it allows: the DEL
-- of `release` forgets a slot that another request took behind the DECR.
pub Reach-over_limit : (n : ℕ) → (s : Slots) × Reach (pos (suc n)) s × (s.holding ≡ n + 2)
Reach-over_limit n =
    (held (0 + suc n) (1 + suc n), take_many (suc n) 0 1 (omega arith) (lost_slot n), omega arith)
