-- ===== src/Vllm/Stream.antt =====
-- backend/services/vllm/stream.py: heartbeats and the closing event of a stream.
pub mod Relay
use ansuman_gpu_inference_se.Prelude.{
  ℕ, Bool, true, false, ◌||◌, List, [], ◌∷◌, ◌++◌, length, drop, ◌-◌, if◌then◌else◌,
}
use ansuman_gpu_inference_se.Text.{Text, codes, eqb_text, strip}
use ansuman_gpu_inference_se.Io.{Exc}

-- What an async iterator of lines will do, step by step: it ends, it raises, it gives a line, or
-- a heartbeat interval passes while it waits.
pub data Stream : Type 0 where
  ends : Stream
  fails : Exc → Stream
  line : Text → Stream → Stream
  waits : Stream → Stream

abbrev pub done_line : Text
done_line = codes "data: [DONE]"

abbrev pub blank_line : Text
blank_line = codes "\n\n"

unfoldable pub format_sse_data : Text → Text
format_sse_data text = codes "data: " ++ text ++ blank_line

abbrev pub heartbeat : Text
heartbeat = codes ": heartbeat\n\n"

-- `s.endswith(t)`
abbrev pub ends_with : Text → Text → Bool
ends_with s t = eqb_text (drop (length s - length t) s) t

-- `stream_with_heartbeats`
unfoldable pub stream_with_heartbeats : Stream → Stream
stream_with_heartbeats ends = ends
stream_with_heartbeats (fails e) = fails e
stream_with_heartbeats (line l s) = line l (stream_with_heartbeats s)
stream_with_heartbeats (waits s) = line heartbeat (stream_with_heartbeats s)

abbrev pub event_text : Text → Text
event_text stripped = if ends_with stripped blank_line then stripped else stripped ++ blank_line

abbrev pub is_nil : Text → Bool
is_nil [] = true
is_nil (c ∷ s) = false

-- The loop of `ensure_done_event`, with `sent_done` so far.
unfoldable pub relay : Bool → Stream → Stream
unfolding format_sse_data
relay sent_done ends = if sent_done then ends else line (format_sse_data (codes "[DONE]")) ends
relay sent_done (fails e) = fails e
relay sent_done (waits s) = waits (relay sent_done s)
relay sent_done (line l s) =
    let stripped = strip l in
    let skipping = relay sent_done s in
    let rest = relay (sent_done || eqb_text done_line stripped) s in
    if is_nil stripped then skipping else line (event_text stripped) rest

unfoldable pub ensure_done_event : Stream → Stream
unfolding relay
ensure_done_event s = relay false s
