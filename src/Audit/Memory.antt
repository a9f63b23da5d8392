-- ===== src/Audit/Memory.antt =====
-- `InMemoryRequestAuditService` of backend/services/inference/usage_finalizer.py.
use Prim.Native.String.{◌++◌}
use Prim.Native.Nat.{◌+◌}
use text.Mathlib.TextLemmas.{append_cancel_left}
use ansuman_gpu_inference_se.Prelude.{
  ℕ, String, ◌≡◌, ◌≢◌, refl, true, false, Option, none, some, List, [], ◌∷◌, length, arith, ◌=?◌,
  eq_iff, eq_refl, sym, ap, subst, ◌∙◌, if◌then◌else◌,
}
use ansuman_gpu_inference_se.Prelude
use ansuman_gpu_inference_se.Text.Decimal.{str_of_ℕ, str_of_ℕ-inj}
use ansuman_gpu_inference_se.Io.{ok, Io}
use ansuman_gpu_inference_se.Audit.Lifecycle.{AuditStart, AuditFinal}

pub record InMemoryAuditRecord : Type 0 where
  pub record_id : String
  pub begun : AuditStart
  pub final : Option AuditFinal

abbrev pub recorded : AuditStart → Option AuditFinal → String → InMemoryAuditRecord
recorded begun final record_id = record { record_id = record_id; begun = begun; final = final }

abbrev pub Records : Type 0
Records = List InMemoryAuditRecord

unfoldable pub audit_id : ℕ → String
audit_id n = "audit_" ++ str_of_ℕ n

-- `self.records.append(...)`
abbrev pub appended : Records → InMemoryAuditRecord → Records
appended rs r = Prelude.◌++◌ rs (r ∷ [])

unfoldable pub start : AuditStart → Io Records String
start audit rs =
    let record_id = audit_id (length rs + 1) in
    (ok record_id, appended rs (recorded audit none record_id))

-- The `for` loop, which ends at the first record of that id.
unfoldable pub set_final : AuditFinal → Records → Records
set_final final [] = []
set_final final (r ∷ rs) =
    if r.record_id =? final.record_id
    then record r { final = some final } ∷ rs
    else r ∷ set_final final rs

unfoldable pub finalize : AuditFinal → Io Records (Unit {0})
unfolding set_final
finalize final rs = (ok tt, set_final final rs)

-- The records from number `n` on have their numbers as ids.
abbrev pub AreNumbered : ℕ → Records → Type 0
AreNumbered n [] = Unit
AreNumbered n (r ∷ rs) = (r.record_id ≡ audit_id n) × AreNumbered (n + 1) rs

audit_id-inj : (m n : ℕ) → audit_id m ≡ audit_id n → m ≡ n
unfolding audit_id
audit_id-inj m n e = str_of_ℕ-inj m n (append_cancel_left "audit_" (str_of_ℕ m) (str_of_ℕ n) e)

audit_id-apart : (m n : ℕ) → m ≢ n → (audit_id m =? audit_id n) ≡ false
audit_id-apart m n h = ground (arith, eq_iff (audit_id m) (audit_id n), h, audit_id-inj m n)

shift : (n k : ℕ) → audit_id (n + Prelude.suc k) ≡ audit_id (n + 1 + k)
shift n k = ap audit_id (omega arith)

appended-AreNumbered :
    (n : ℕ) (audit : AuditStart) (final : Option AuditFinal) (rs : Records)
    → AreNumbered n rs
    → AreNumbered n (appended rs (recorded audit final (audit_id (n + length rs))))
appended-AreNumbered n audit final [] h = (ap audit_id (omega arith), tt)
appended-AreNumbered n audit final (r ∷ rs) (e, h) =
    (e, rw (shift n (length rs)) (appended-AreNumbered (n + 1) audit final rs h))

set_final-appended :
    (n : ℕ) (audit : AuditStart) (final : AuditFinal) (rs : Records)
    → AreNumbered n rs
    → audit_id (n + length rs) ≡ final.record_id
    → set_final final (appended rs (recorded audit none final.record_id))
      ≡ appended rs (recorded audit (some final) final.record_id)
unfolding set_final
set_final-appended n audit final [] h e = ground (arith, eq_refl final.record_id)
set_final-appended n audit final (r ∷ rs) (own, h) e =
    let apart = audit_id-apart n (n + Prelude.suc (length rs)) (omega arith) in
    let other : (r.record_id =? final.record_id) ≡ false = rw own (rw (sym e) apart) in
    rw other (
      ap (λ t. r ∷ t) (set_final-appended (n + 1) audit final rs h (sym (shift n (length rs)) ∙ e)))

-- Finalizing an audit with the id that its start returned sets the final state of that record and of
-- no other, whatever was started before.
pub finalize-start :
    (audit : AuditStart) (final : AuditFinal) (rs : Records)
    → AreNumbered 1 rs
    → let (r, started) = start audit rs in
      r ≡ ok final.record_id
      → ((finalize final started).1 ≡ appended rs (recorded audit (some final) final.record_id))
        × AreNumbered 1 (finalize final started).1
unfolding start finalize
finalize-start audit final rs h e =
    let same : audit_id (length rs + 1) ≡ final.record_id = ground (arith, e) in
    let at_end : audit_id (1 + length rs) ≡ final.record_id = ap audit_id (omega arith) ∙ same in
    let done = set_final-appended 1 audit final rs h at_end in
    let begun : (start audit rs).1 ≡ appended rs (recorded audit none final.record_id) =
      ap (λ i. appended rs (recorded audit none i)) same in
    let ends = ap (set_final final) begun ∙ done in
    (
      ends,
      subst (AreNumbered 1) (sym ends) (
          subst (λ i. AreNumbered 1 (appended rs (recorded audit (some final) i))) at_end
            (appended-AreNumbered 1 audit (some final) rs h)),
    )
