-- ===== src/Vllm/Examples.antt =====
-- Upstream streams and answers, and the theorems at them.
use ansuman_gpu_inference_se.Prelude.{
  ℕ, ◌<◌, ◌≡◌, refl, ◌↔◌, not, ◌&&◌, some, [], ◌∷◌, ◌++◌, if◌then◌else◌,
}
use ansuman_gpu_inference_se.Text.{codes, text_in}
use ansuman_gpu_inference_se.Json.{end, obj}
use ansuman_gpu_inference_se.Io.{AppError, app, ok}
use ansuman_gpu_inference_se.Vllm.Stream.{Stream, ends, line, waits, done_line, ensure_done_event}
use ansuman_gpu_inference_se.Vllm.Stream.Relay.{contents, completes, contents-ensure_done_event}
use ansuman_gpu_inference_se.Vllm.Client.{
  response, times_out, read_answer, read_answer_iff, read_answer_error, is_time_out, timeout_error,
}

abbrev upstream : Stream
upstream = line (codes " data: {} ") (line (codes "  ") (waits ends))

contents-ensure_done_event_example :
    contents (ensure_done_event upstream)
    ≡ contents upstream
      ++ (if completes upstream && not (text_in done_line (contents upstream))
          then done_line ∷ []
          else [])
contents-ensure_done_event_example = contents-ensure_done_event upstream

read_answer_iff_example : (read_answer (response 200 (some (obj end))) ≡ ok end) ↔ (
    (status : ℕ) × (status < 400)
    × (response 200 (some (obj end)) ≡ response status (some (obj end))))
read_answer_iff_example = read_answer_iff (response 200 (some (obj end))) end

read_answer_error_example :
    (a : AppError) × (app timeout_error ≡ app a)
    × (a.type ≡ "server_error")
    × (a.status_code ≡ (if is_time_out times_out then 504 else 502))
unfolding read_answer
read_answer_error_example = read_answer_error times_out (app timeout_error) refl
