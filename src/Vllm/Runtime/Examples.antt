-- ===== src/Vllm/Runtime/Examples.antt =====
-- A command with blanks and quotes, a server that starts late, and the theorems at them.
use ansuman_gpu_inference_se.Prelude.{ℕ, ◌+◌, ◌≡◌, refl, some, [], ◌∷◌, ltb, arith, if◌then◌else◌}
use ansuman_gpu_inference_se.Text.{codes}
use ansuman_gpu_inference_se.Io.{ok, Io}
use ansuman_gpu_inference_se.Vllm.Runtime.{quote, command_to_shell, wait_for_vllm_ready}
use ansuman_gpu_inference_se.Vllm.Runtime.Shell.{shell_words, shell_words-command_to_shell}
use ansuman_gpu_inference_se.Vllm.Runtime.Ready.{ClockLaws, Ends, wait_for_vllm_ready-Ends}

shell_words-command_to_shell_example :
    shell_words (command_to_shell (codes "vllm" ∷ codes "my model's" ∷ [] ∷ []))
    ≡ some (codes "vllm" ∷ codes "my model's" ∷ [] ∷ [])
shell_words-command_to_shell_example =
    shell_words-command_to_shell (codes "vllm" ∷ codes "my model's" ∷ [] ∷ [])

quoted : quote (codes "it's") ≡ codes "'it'\"'\"'s'"
unfolding quote
quoted = refl

-- The world is the time; the server answers with 503 in front of 4, and with 200 from then on.
abbrev answers : Io ℕ ℕ
answers t = (ok (if ltb t 4 then 503 else 200), t)

abbrev sleeps : Io ℕ (Unit {0})
sleeps t = (ok tt, t + 2)

abbrev clock : ℕ → ℕ
clock t = t

clock_laws : ClockLaws answers sleeps clock
clock_laws = record { get_lem = λ w. omega arith; sleep_lem = λ w. omega arith }

wait_for_vllm_ready-Ends_example :
    Ends answers sleeps clock (clock 0 + 10) (wait_for_vllm_ready answers sleeps clock 11 10 0)
wait_for_vllm_ready-Ends_example =
    wait_for_vllm_ready-Ends answers sleeps clock clock_laws 11 10 0 (omega arith)

waited : wait_for_vllm_ready answers sleeps clock 11 10 0 ≡ some (ok tt, 4)
unfolding wait_for_vllm_ready
waited = refl
