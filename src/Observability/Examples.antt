-- ===== src/Observability/Examples.antt =====
-- An event with a password at depth, and the theorem at it.
use ansuman_gpu_inference_se.Text.{Text, codes}
use ansuman_gpu_inference_se.Json.{Json, nil, cons, end, field, str, arr, obj}
use ansuman_gpu_inference_se.Observability.{scrub_data}
use ansuman_gpu_inference_se.Observability.Scrubbed.{IsScrubbed, SameShape, scrub_data_lem}

abbrev event : Json
event =
    obj (field "extra" (arr (cons (obj (field "DB_Password" (str (codes "hunter2")) end)) nil)) end)

abbrev as_is : Text → Text
as_is s = s

scrub_data_lem_example :
    IsScrubbed (scrub_data as_is event) × SameShape event (scrub_data as_is event)
scrub_data_lem_example = scrub_data_lem as_is event
