-- ===== src/Services/Uploads/Finalize/Layout.antt =====
-- The chunks that `finalize` lays out.
use rescs.Prelude.{
  String, ℕ, zero, suc, ◌+◌, ◌-◌, ◌≤◌, ◌<◌, ◌≡◌, ◌≢◌, List, arith, length, length-append,
  Option-cases, inl, inr,
}
use rescs.Errors.{ok, err, rescs_error, Result-cases}
use rescs.Dict
use rescs.Dict.{Dict}
use rescs.Domain.{UploadSessionData}
use rescs.World.{BlobKey, chunk, blob_key_eq}
use rescs.Services.Uploads.Chunks.{received_from, received}
use rescs.Services.Uploads.Finalize.{layout_from, layout}

-- The bytes that are laid out reach from the offset to the declared size.
layout_from-length :
    (fuel : ℕ) (blobs : Dict BlobKey (List ℕ)) (id : String) (total offset : ℕ) (bytes : List ℕ)
    → offset ≤ total
    → layout_from fuel blobs id total offset ≡ ok bytes
    → length bytes + offset ≡ total
unfolding layout_from
layout_from-length zero blobs id total offset bytes le h = ground arith
layout_from-length (suc fuel) blobs id total offset bytes le h =
    elim (Option-cases (Dict.get (chunk id offset) blobs)) [
      | inl absent ↦ ground (arith)
      | inr (b, found) ↦ elim (Result-cases (layout_from fuel blobs id total (offset + length b))) [
        | inl (more, rest) ↦ ground (
          arith,
          length-append b more,
          layout_from-length fuel blobs id total (offset + length b) more,
        )
        | inr (e, rest) ↦ ground arith
      ]
    ]

-- A round for each byte that is missing is enough: the error of a round too many does not occur.
layout_from-fuel :
    (fuel : ℕ) (blobs : Dict BlobKey (List ℕ)) (id : String) (total offset : ℕ)
    → total - offset < fuel
    → layout_from fuel blobs id total offset ≢ err rescs_error
unfolding layout_from
layout_from-fuel zero blobs id total offset lt h = absurd (omega arith)
layout_from-fuel (suc fuel) blobs id total offset lt h =
    elim (Option-cases (Dict.get (chunk id offset) blobs)) [
      | inl absent ↦ ground arith
      | inr (b, found) ↦ elim (Result-cases (layout_from fuel blobs id total (offset + length b))) [
        | inl (more, rest) ↦ ground arith
        | inr (e, rest) ↦ ground (arith, layout_from-fuel fuel blobs id total (offset + length b))
      ]
    ]

-- The contiguous bytes that `put_chunk` counts are at least what `finalize` would lay out.
received_from-layout :
    (fuel : ℕ) (blobs : Dict BlobKey (List ℕ)) (id : String) (total offset : ℕ) (bytes : List ℕ)
    → offset ≤ total
    → layout_from fuel blobs id total offset ≡ ok bytes
    → received_from fuel blobs id total offset + offset ≡ total
unfolding layout_from received_from
received_from-layout zero blobs id total offset bytes le h = ground arith
received_from-layout (suc fuel) blobs id total offset bytes le h =
    elim (Option-cases (Dict.get (chunk id offset) blobs)) [
      | inl absent ↦ ground arith
      | inr (b, found) ↦ elim (Result-cases (layout_from fuel blobs id total (offset + length b))) [
        | inl (more, rest) ↦
            ground (arith, received_from-layout fuel blobs id total (offset + length b) more)
        | inr (e, rest) ↦ ground arith
      ]
    ]

-- When the chunks of a session can be laid out, their bytes are as many as were declared, and the
-- count that `put_chunk` keeps says so too.
pub layout_lem :
    (blobs : Dict BlobKey (List ℕ)) (session : UploadSessionData) (bytes : List ℕ)
    → layout blobs session ≡ ok bytes
    → (length bytes ≡ session.total_size) × (received blobs session ≡ session.total_size)
unfolding layout received
layout_lem blobs s bytes h = (
  omega (
    arith,
    layout_from-length (suc s.total_size) blobs s.id s.total_size 0 bytes (omega arith) h,
  ),
  omega (
    arith,
    received_from-layout (suc s.total_size) blobs s.id s.total_size 0 bytes (omega arith) h,
  ),
)

-- The loop that lays the chunks out ends: it never needs more rounds than it has, whatever chunks
-- are stored.
pub layout-enough_rounds :
    (blobs : Dict BlobKey (List ℕ)) (session : UploadSessionData)
    → layout blobs session ≢ err rescs_error
unfolding layout
layout-enough_rounds blobs s =
    layout_from-fuel (suc s.total_size) blobs s.id s.total_size 0 (omega arith)
