-- ===== src/Inference/Streaming/Loop.antt =====
-- The loop over the events in `_stream_response` of backend/api/routes/chat_completions.py and its
-- `except` clauses leave the lease alone.
use ansuman_gpu_inference_se.Prelude.{ℕ, Bool, true, false, Option, ◌≡◌, refl, ◌∙◌, ◌++◌}
use ansuman_gpu_inference_se.Text.{Text}
use ansuman_gpu_inference_se.Json.{Json}
use ansuman_gpu_inference_se.Io.{app, error, cancelled, Result, ok, raised}
use ansuman_gpu_inference_se.Io.Keeps.{Keeps, pure-Keeps}
use ansuman_gpu_inference_se.Tokens.Usage.{stream_delta_text}
use ansuman_gpu_inference_se.Vllm.Stream.{Stream, ends, fails, line, waits}
use ansuman_gpu_inference_se.Inference.Services.{tell-Keeps}
use ansuman_gpu_inference_se.Inference.Chat.{App}
use ansuman_gpu_inference_se.Inference.Chat.Slots.{AppLaws}
use ansuman_gpu_inference_se.Inference.Streaming.{
  Connection, Ended, Loop, after_send, send_event, note_event, after_delta, after_check,
  is_first_token, consume, report,
}

-- The connection does not touch the count of leases either.
pub record ConnectionLaws {W : Type 0} (connection : Connection W) (held : W → ℕ) : Type 0 where
  pub is_disconnected-Keeps : Keeps held connection.is_disconnected
  pub send-Keeps : (t : Text) → Keeps held (connection.send t)
  pub close-Keeps : Keeps held connection.close
  pub held-record_started : (w : W) → held (connection.record_started w) ≡ held w
  pub held-record_ttft : (w : W) → held (connection.record_ttft w) ≡ held w
  pub held-record_finished : (w : W) → held (connection.record_finished w) ≡ held w

module _ {W L : Type 0} (gateway : App W L) (connection : Connection W)
    (json_loads : Text → Option Json) {held : W → ℕ} (laws : AppLaws gateway held)
    (links : ConnectionLaws connection held) where
  abbrev pub KeepsHeld : (W → Ended × W) → Type 0
  KeepsHeld f = (w : W) → held (f w).1 ≡ held w

  abbrev pub LoopKeeps : Loop gateway connection json_loads → Type 0
  LoopKeeps rest = (text : Text) (seen : Bool) → KeepsHeld (rest text seen)

  after_send-Keeps :
      (rest : Loop gateway connection json_loads)
      → LoopKeeps rest
      → (text : Text) (seen : Bool) (r : Result (Unit {0}))
      → KeepsHeld (after_send gateway connection json_loads rest text seen r)
  after_send-Keeps rest k text seen (ok _) = k text seen
  after_send-Keeps rest k text seen (raised e) = λ w. refl

  send_event-Keeps :
      (event : Text) (rest : Loop gateway connection json_loads)
      → LoopKeeps rest
      → (text : Text) (seen : Bool)
      → KeepsHeld (send_event gateway connection json_loads event rest text seen)
  send_event-Keeps event rest k text seen = λ w.
      let (r, w') = connection.send event w in
      after_send-Keeps rest k text seen r w' ∙ (links.send-Keeps event).keeps w

  note_event-Keeps :
      (event : Text) (rest : Loop gateway connection json_loads)
      → LoopKeeps rest
      → (text : Text) (seen first : Bool)
      → KeepsHeld (note_event gateway connection json_loads event rest text seen first)
  note_event-Keeps event rest k text seen true = λ w.
      send_event-Keeps event rest k text true (connection.record_ttft w) ∙ links.held-record_ttft w
  note_event-Keeps event rest k text seen false = send_event-Keeps event rest k text seen

  after_delta-Keeps :
      (event : Text) (rest : Loop gateway connection json_loads)
      → LoopKeeps rest
      → (text : Text) (seen : Bool) (r : Result Text)
      → KeepsHeld (after_delta gateway connection json_loads event rest text seen r)
  after_delta-Keeps event rest k text seen (ok delta) =
      note_event-Keeps event rest k (text ++ delta) seen
        (is_first_token gateway connection json_loads seen event)
  after_delta-Keeps event rest k text seen (raised e) = λ w. refl

  after_check-Keeps :
      (event : Text) (rest : Loop gateway connection json_loads)
      → LoopKeeps rest
      → (text : Text) (seen : Bool) (r : Result Bool)
      → KeepsHeld (after_check gateway connection json_loads event rest text seen r)
  after_check-Keeps event rest k text seen (ok true) = λ w. refl
  after_check-Keeps event rest k text seen (ok false) =
      after_delta-Keeps event rest k text seen (stream_delta_text json_loads event)
  after_check-Keeps event rest k text seen (raised e) = λ w. refl

  pub consume-Keeps : (s : Stream) → LoopKeeps (consume gateway connection json_loads s)
  unfolding consume
  consume-Keeps ends text seen = λ w. refl
  consume-Keeps (fails e) text seen = λ w. refl
  consume-Keeps (waits s) text seen = consume-Keeps s text seen
  consume-Keeps (line event s) text seen = λ w.
      let (r, w') = connection.is_disconnected w in
      after_check-Keeps event (consume gateway connection json_loads s) (consume-Keeps s) text seen
        r w'
      ∙ links.is_disconnected-Keeps.keeps w

  pub report-Keeps : (r : Result Bool) → Keeps held (report gateway connection json_loads r)
  report-Keeps (ok _) = pure-Keeps held tt
  report-Keeps (raised (app e)) =
      tell-Keeps held (gateway.capture (app e)) (laws.held-capture (app e))
  report-Keeps (raised (error e)) =
      tell-Keeps held (gateway.capture (error e)) (laws.held-capture (error e))
  report-Keeps (raised cancelled) = pure-Keeps held tt
