-- ===== src/Tests/Uploads.antt =====
-- Uploads.
use rescs.Prelude.{◌≡◌, ◌≢◌, refl, false, some, ℕ, List, [], ◌∷◌, ◌+◌, length, string_eq}
use rescs.Prelude.Int.{pos}
use rescs.Errors.{ok, err, not_found, conflict, invalid_request, rescs_error}
use rescs.Dict.{get, Dict}
use rescs.Domain.{UploadSessionData, finalizing}
use rescs.Memory.Sessions as Sessions
use rescs.World.{BlobKey, chunk, blob_key_eq}
use rescs.Services.Common.{check_owner}
use rescs.Services.Uploads.Chunks.{put_chunk, received}
use rescs.Services.Uploads.Finalize.{finalize, layout}
use rescs.Services.Uploads.Finalize.Layout.{layout_lem, layout-enough_rounds}
use rescs.Services.Uploads.Finalize.Stuck.{finalize_strands}
use rescs.Tests.Data.{runtime, service, world, upload}

there : get "s" world.sessions ≡ some upload
unfolding get
there = refl

missing : layout world.blobs upload ≡ err invalid_request
unfolding layout get
missing = refl

owned : check_owner service.settings upload.owner ≡ ok tt
unfolding check_owner
owned = refl

abbrev stranded : UploadSessionData
stranded = record upload { status = finalizing; updated_at = runtime.clock (world.ticks + 1) }

finalize_strands_example :
    let w' = (finalize runtime service "s" "ann" world).1 in
    ((finalize runtime service "s" "ann" world).0 ≡ err invalid_request)
    × ((put_chunk runtime service "s" (pos 0) (1 ∷ 2 ∷ 3 ∷ []) "ann" w').0 ≡ err not_found)
    × ((finalize runtime service "s" "ann" w').0 ≡ err conflict)
    × (get "s" w'.sessions ≡ some stranded)
    × (Sessions.is_stale 9000 stranded ≡ false)
finalize_strands_example =
    finalize_strands runtime service "s" "ann" world upload (pos 0) (1 ∷ 2 ∷ 3 ∷ []) 9000 there refl
      refl refl owned missing

abbrev two_chunks : Dict BlobKey (List ℕ)
two_chunks = (chunk "s" 0, 7 ∷ 8 ∷ []) ∷ (chunk "s" 2, 9 ∷ []) ∷ []

layout_run : layout two_chunks upload ≡ ok (7 ∷ 8 ∷ 9 ∷ [])
unfolding layout get
layout_run = refl

layout_lem_example :
    (length {A = ℕ} (7 ∷ 8 ∷ 9 ∷ []) ≡ upload.total_size)
    × (received two_chunks upload ≡ upload.total_size)
layout_lem_example = layout_lem two_chunks upload (7 ∷ 8 ∷ 9 ∷ []) layout_run

layout-enough_rounds_example : layout two_chunks upload ≢ err rescs_error
layout-enough_rounds_example = layout-enough_rounds two_chunks upload
