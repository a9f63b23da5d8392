-- ===== src/Json/Dict.antt =====
-- Reading what was written to a JSON object.
use ansuman_gpu_inference_se.Prelude.{String, ◌≡◌, some, arith, ◌=?◌, eq_iff, if◌then◌else◌}
use ansuman_gpu_inference_se.Json.{Json, Fields, end, field, get, put}

pub get-put :
    (k j : String) (v : Json) (fs : Fields)
    → get j (put k v fs) ≡ (if k =? j then some v else get j fs)
unfolding get put
get-put k j v end = ground arith
get-put k j v (field i w fs) = ground (arith, eq_iff k j, eq_iff i k, eq_iff i j, get-put k j v fs)
