-- ===== src/Inference/Streaming.antt =====
-- `_stream_response` of backend/api/routes/chat_completions.py: the generator behind a streamed
-- completion.
pub mod Loop
pub mod Slots
use ansuman_gpu_inference_se.Prelude.{
  ℕ, ℤ, String, Bool, true, false, ◌&&◌, not, Option, none, some, ◌++◌, List, [], ◌∷◌,
  if◌then◌else◌,
}
use ansuman_gpu_inference_se.Text.{Text, codes, starts_with, strip, eqb_text}
use ansuman_gpu_inference_se.Json.{Json}
use ansuman_gpu_inference_se.Io.{
  Exc, app, error, cancelled, Result, ok, raised, Io, pure, raise, lift, code_or, ◌>>=◌, ◌>>◌,
}
use ansuman_gpu_inference_se.Tokens.Usage.{
  UsageRecord, usage_from_stream_text, stream_delta_text, data_prefix,
}
use ansuman_gpu_inference_se.Vllm.Stream.{
  Stream, ends, fails, line, waits, done_line, stream_with_heartbeats, ensure_done_event,
}
use ansuman_gpu_inference_se.Inference.Services.{tell}
use ansuman_gpu_inference_se.Inference.Chat.{App, Call, close_call}

-- The client's end of a stream: `send` is the `yield`, which is left by an exception where the
-- generator is cancelled or closed; `close` is `aclose` of the three iterators, in turn.
pub record Connection (W : Type 0) : Type 0 where
  pub is_disconnected : Io W Bool
  pub send : Text → Io W (Unit {0})
  pub close : Io W (Unit {0})
  pub record_started : W → W
  pub record_ttft : W → W
  pub record_finished : W → W

-- How the loop ended: by `break` at a client that is gone, by the end of the events, or by an
-- exception; and the text that was collected until then.
pub record Ended : Type 0 where
  pub outcome : Result Bool
  pub completion_text : Text

-- `status` at the `finally`: an exception that is no `Exception` leaves it as it was.
abbrev pub status_of : Result Bool → String
status_of (ok true) = "client_disconnected"
status_of (ok false) = "completed"
status_of (raised cancelled) = "completed"
status_of (raised _) = "failed"

abbrev pub error_code_of : Result Bool → Option String
error_code_of (raised (app e)) = some e.code
error_code_of (raised (error s)) = some "internal_server_error"
error_code_of _ = none

-- `status == "failed"`
abbrev pub is_failed : Result Bool → Bool
is_failed (raised cancelled) = false
is_failed (raised _) = true
is_failed (ok _) = false

module _ {W L : Type 0} (gateway : App W L) (connection : Connection W)
    (json_loads : Text → Option Json) where
  -- What is left of the loop, with `completion_text` and `first_token_seen` so far.
  abbrev pub Loop : Type 0
  Loop = Text → Bool → W → Ended × W

  abbrev pub stop : Result Bool → Text → W → Ended × W
  stop outcome text w = (record { outcome = outcome; completion_text = text }, w)

  abbrev pub is_first_token : Bool → Text → Bool
  is_first_token first_token_seen event =
      not first_token_seen
      && (starts_with event data_prefix && not (eqb_text (strip event) done_line))

  -- The `yield`, and what follows it.
  abbrev pub after_send : Loop → Text → Bool → Result (Unit {0}) → W → Ended × W
  after_send rest text seen (ok _) = rest text seen
  after_send rest text seen (raised e) = stop (raised e) text

  abbrev pub send_event : Text → Loop → Text → Bool → W → Ended × W
  send_event event rest text seen w =
      let (r, w') = connection.send event w in after_send rest text seen r w'

  abbrev pub note_event : Text → Loop → Text → Bool → Bool → W → Ended × W
  note_event event rest text seen true w =
      send_event event rest text true (connection.record_ttft w)
  note_event event rest text seen false w = send_event event rest text seen w

  abbrev pub after_delta : Text → Loop → Text → Bool → Result Text → W → Ended × W
  after_delta event rest text seen (ok delta) =
      note_event event rest (text ++ delta) seen (is_first_token seen event)
  after_delta event rest text seen (raised e) = stop (raised e) text

  abbrev pub after_check : Text → Loop → Text → Bool → Result Bool → W → Ended × W
  after_check event rest text seen (ok true) = stop (ok true) text
  after_check event rest text seen (ok false) =
      after_delta event rest text seen (stream_delta_text json_loads event)
  after_check event rest text seen (raised e) = stop (raised e) text

  abbrev pub turn : Text → Loop → Loop
  turn event rest text seen w =
      let (r, w') = connection.is_disconnected w in after_check event rest text seen r w'

  -- The `async for` over the events.
  unfoldable pub consume : Stream → Loop
  consume ends text seen = stop (ok false) text
  consume (fails e) text seen = stop (raised e) text
  consume (waits s) text seen = consume s text seen
  consume (line event s) text seen = turn event (consume s) text seen

  abbrev pub report : Result Bool → Io W (Unit {0})
  report (ok _) = pure tt
  report (raised cancelled) = pure tt
  report (raised e) = tell (gateway.capture e)

  -- How the generator ends once its `finally` has run.
  abbrev pub conclude : Result Bool → Io W (Unit {0})
  conclude (ok _) = pure tt
  conclude (raised e) = raise e

  unfoldable pub settle_stream : Call L → Ended → Io W (Unit {0})
  settle_stream call ended =
      let usage =
        usage_from_stream_text ended.completion_text call.plan gateway.token_estimator
          (status_of ended.outcome) in
      connection.close
      >> (connection.close
          >> (connection.close
              >> (gateway.admission.finalize_tokens call.lease usage.total_tokens
                    (is_failed ended.outcome)
                  >> (tell (gateway.record_usage usage)
                      >> (close_call gateway call usage (error_code_of ended.outcome)
                          >> (gateway.admission.release call.lease
                              >> tell connection.record_finished))))))

  unfoldable pub stream_response : Call L → Stream → Io W (Unit {0})
  unfolding consume settle_stream
  stream_response call upstream w =
      let events = ensure_done_event (stream_with_heartbeats upstream) in
      let (ended, w') = consume events [] false (connection.record_started w) in
      (report ended.outcome >> (settle_stream call ended >> conclude ended.outcome)) w'
