-- ===== src/Vllm/Stream/Relay.antt =====
-- What a client gets of an upstream stream of backend/services/vllm/stream.py.
use ansuman_gpu_inference_se.Prelude.{
  ◌≡◌, refl, ap, ◌∙◌, Bool, true, false, not, ◌&&◌, ◌||◌, List, [], ◌∷◌, ◌++◌, Bool-cases, inl, inr,
  if◌then◌else◌,
}
use ansuman_gpu_inference_se.Text.{Text, eqb_text, strip, lstrip, rstrip, push, text_in, is_space}
use ansuman_gpu_inference_se.Text.Blanks.{strip-blank, strip-strip}
use ansuman_gpu_inference_se.Vllm.Stream.{
  Stream, ends, fails, line, waits, done_line, blank_line, ends_with, event_text, is_nil, relay,
  ensure_done_event,
}

-- The lines of a stream that are not blank, stripped and in order.
abbrev pub contents : Stream → List Text
contents ends = []
contents (fails e) = []
contents (waits s) = contents s
contents (line l s) = let rest = contents s in if is_nil (strip l) then rest else strip l ∷ rest

-- The stream ends without an error.
abbrev pub completes : Stream → Bool
completes ends = true
completes (fails e) = false
completes (waits s) = completes s
completes (line l s) = completes s

abbrev closing : Bool → Stream → List Text
closing sent s =
    if completes s && not (sent || text_in done_line (contents s)) then done_line ∷ [] else []

strip-event_text : (l : Text) → strip (event_text (strip l)) ≡ strip l
strip-event_text l = elim (Bool-cases (ends_with (strip l) blank_line)) [
  | inl h ↦ rw h (strip-strip l)
  | inr h ↦ rw h (
      strip-blank [] (strip l) blank_line tt (unfold is_space in (refl, (refl, tt)))
      ∙ strip-strip l)
]

closing_assoc :
    (sent closes : Bool) (s : Stream)
    → closing (sent || closes) s ≡ (
        if completes s && not (sent || (closes || text_in done_line (contents s)))
        then done_line ∷ []
        else [])
closing_assoc true closes s = refl
closing_assoc false closes s = refl

contents-relay : (sent : Bool) (s : Stream) → contents (relay sent s) ≡ contents s ++ closing sent s
unfolding relay
contents-relay true ends = refl
contents-relay false ends = unfold strip lstrip rstrip push is_space in refl
contents-relay sent (fails e) = refl
contents-relay sent (waits s) = contents-relay sent s
contents-relay sent (line l s) = elim (Bool-cases (is_nil (strip l))) [
  | inl h ↦ rw h (contents-relay sent s)
  | inr h ↦
      rw (h, strip-event_text l, h)
        (ap (λ t. strip l ∷ t)
          (contents-relay (sent || eqb_text done_line (strip l)) s
            ∙ ap (λ t. contents s ++ t) (closing_assoc sent (eqb_text done_line (strip l)) s)))
]

-- A client gets every line of the upstream that is not blank, in order, and then the closing event
-- where the upstream completes without sending one: the event is never missing from a complete
-- stream, never added to a second one, and never added to a stream that breaks off.
pub contents-ensure_done_event :
    (s : Stream)
    → contents (ensure_done_event s)
      ≡ contents s
        ++ (if completes s && not (text_in done_line (contents s)) then done_line ∷ [] else [])
unfolding ensure_done_event
contents-ensure_done_event s = contents-relay false s
