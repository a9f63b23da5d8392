-- ===== src/Observability/Scrubbed.antt =====
-- What is left of an event that `scrub_data` of backend/services/observability/sentry.py has scrubbed.
use ansuman_gpu_inference_se.Prelude.{◌≡◌, refl, true, false, arith, inl, inr, Bool-cases}
use ansuman_gpu_inference_se.Text.{Text}
use ansuman_gpu_inference_se.Json.{
  Json, Items, Fields, null, bool, int, float, nonfinite, str, arr, obj, nil, cons, end, field,
}
use ansuman_gpu_inference_se.Observability.{
  redacted, is_sensitive, scrub_data, scrub_items, scrub_fields,
}

-- No value under a sensitive key is left, at any depth.
mutual
  pub IsScrubbed : Json → Type 0
  IsScrubbed (obj fs) = AreScrubbed fs
  IsScrubbed (arr xs) = AllScrubbed xs
  IsScrubbed _ = Unit

  pub AllScrubbed : Items → Type 0
  AllScrubbed nil = Unit
  AllScrubbed (cons x xs) = IsScrubbed x × AllScrubbed xs

  pub AreScrubbed : Fields → Type 0
  AreScrubbed end = Unit
  AreScrubbed (field k v fs) =
      (is_sensitive k ≡ true → v ≡ str redacted) × (IsScrubbed v × AreScrubbed fs)

-- The keys of every object, and the lengths of every array, outside of what is redacted.
mutual
  pub SameShape : Json → Json → Type 0
  SameShape (obj fs) (obj gs) = SameFields fs gs
  SameShape (arr xs) (arr ys) = SameItems xs ys
  SameShape (str s) (str t) = Unit
  SameShape v w = v ≡ w

  pub SameItems : Items → Items → Type 0
  SameItems nil nil = Unit
  SameItems (cons x xs) (cons y ys) = SameShape x y × SameItems xs ys
  SameItems _ _ = ⊥

  pub SameFields : Fields → Fields → Type 0
  SameFields end end = Unit
  SameFields (field j v fs) (field k w gs) =
      (j ≡ k) × ((is_sensitive j ≡ false → SameShape v w) × SameFields fs gs)
  SameFields _ _ = ⊥

module _ (scrub_string : Text → Text) where
  mutual
    unfolding IsScrubbed scrub_data

    pub scrub_data-IsScrubbed : (v : Json) → IsScrubbed (scrub_data scrub_string v)
    scrub_data-IsScrubbed (obj fs) = scrub_fields-AreScrubbed fs
    scrub_data-IsScrubbed (arr xs) = scrub_items-AllScrubbed xs
    scrub_data-IsScrubbed _ = tt

    scrub_items-AllScrubbed : (xs : Items) → AllScrubbed (scrub_items scrub_string xs)
    scrub_items-AllScrubbed nil = tt
    scrub_items-AllScrubbed (cons x xs) = (scrub_data-IsScrubbed x, scrub_items-AllScrubbed xs)

    scrub_fields-AreScrubbed : (fs : Fields) → AreScrubbed (scrub_fields scrub_string fs)
    scrub_fields-AreScrubbed end = tt
    scrub_fields-AreScrubbed (field k v fs) = elim (Bool-cases (is_sensitive k)) [
      | inl h ↦ ((λ _. rw h refl), (rw h tt, scrub_fields-AreScrubbed fs))
      | inr h ↦ (
        (λ t. absurd (ground (arith, h, t))),
        (rw h (scrub_data-IsScrubbed v), scrub_fields-AreScrubbed fs),
      )
    ]

  mutual
    unfolding SameShape scrub_data

    scrub_data-SameShape : (v : Json) → SameShape v (scrub_data scrub_string v)
    scrub_data-SameShape (obj fs) = scrub_fields-SameFields fs
    scrub_data-SameShape (arr xs) = scrub_items-SameItems xs
    scrub_data-SameShape (str s) = tt
    scrub_data-SameShape null = refl
    scrub_data-SameShape (bool b) = refl
    scrub_data-SameShape (int n) = refl
    scrub_data-SameShape (float n k) = refl
    scrub_data-SameShape nonfinite = refl

    scrub_items-SameItems : (xs : Items) → SameItems xs (scrub_items scrub_string xs)
    scrub_items-SameItems nil = tt
    scrub_items-SameItems (cons x xs) = (scrub_data-SameShape x, scrub_items-SameItems xs)

    scrub_fields-SameFields : (fs : Fields) → SameFields fs (scrub_fields scrub_string fs)
    scrub_fields-SameFields end = tt
    scrub_fields-SameFields (field k v fs) =
        (refl, ((λ h. rw h (scrub_data-SameShape v)), scrub_fields-SameFields fs))

  -- A scrubbed event has no value under a sensitive key, at any depth: each one reads "[Filtered]". All
  -- else keeps its shape: the keys, the lengths of lists, and every value that is no text.
  pub scrub_data_lem :
      (v : Json) → IsScrubbed (scrub_data scrub_string v) × SameShape v (scrub_data scrub_string v)
  scrub_data_lem v = (scrub_data-IsScrubbed v, scrub_data-SameShape v)
