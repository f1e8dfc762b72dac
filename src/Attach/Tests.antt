-- ===== src/Attach/Tests.antt =====
-- Transfers at concrete heads and chunks, with a hash that is the first byte.
use s_chat6_core.Common.{
  ℕ, ap, zero, suc, elem, ◌∙◌, ◌≡◌, ◌≤◌, ◌<◌, ◌%◌, ◌⊎◌, refl, arith, List, [], ◌∷◌, ◌++◌, length,
  length-replicate, replicate, take, true, false, none, some, ok, All,
}
use s_chat6_core.Wire.Attach.Head.{AttachHead}
use s_chat6_core.Wire.Attach.Chunk.{AttachChunk}
use s_chat6_core.Attach.Plan.{AttachPlan, chunk_count_of, plan_transfer}
use s_chat6_core.Attach.Plan.Assembled.{IsPiece, contents, made, made_lem, plan_transfer-assembled}
use s_chat6_core.Attach.Store.{AttachmentRow, ChunkRow, attachment, chunks_for}
use s_chat6_core.Attach.Transfer.{
  AttachDb, attachment_complete, concat, head_row, try_complete, on_attach_head, on_attach_chunk,
  attachment_bytes,
}
use s_chat6_core.Attach.Transfer.Verified.{IsWaiting, IsFailed, IsVerified, try_complete-IsVerified}
use s_chat6_core.Attach.Transfer.Caps.{IsCapped}
use s_chat6_core.Attach.Transfer.Reach.{Reach, Reach-IsCapped}
use s_chat6_core.Attach.Delivery.{Covers, deliver}
use s_chat6_core.Attach.Delivery.Complete.{arrived, planned, transfer-completes}
use s_chat6_core.Attach.Transfer.Leftover.{inline_head-appends}

abbrev first_byte_hash : List ℕ → List ℕ
first_byte_hash bytes = take 1 bytes

abbrev a_file : List ℕ
a_file = replicate 27_950 7

a_file-length : length a_file ≡ 27_950
a_file-length = length-replicate {A = ℕ} 27_950 7

plan_transfer-assembled_example :
    (p : AttachPlan) × (plan_transfer first_byte_hash 1 [] [] a_file [] false ≡ ok p)
    × (concat (contents p.chunks) ≡ a_file)
    × All IsPiece (contents p.chunks)
    × (length (contents p.chunks) ≡ p.head.chunk_count)
    × (length p.chunks ≡ p.head.chunk_bucket)
    × (p.head.chunk_bucket % 8 ≡ 0)
    × (1 ≤ p.head.chunk_count)
    × (p.head.chunk_count ≤ p.head.chunk_bucket)
    × (p.head.chunk_bucket ≤ 1_024)
    × (p.head.uncompressed_n ≡ length a_file)
    × (p.head.content_sha256 ≡ first_byte_hash a_file)
plan_transfer-assembled_example =
    plan_transfer-assembled first_byte_hash 1 [] [] a_file [] false (omega (arith, a_file-length))
      (omega (arith, a_file-length))

abbrev a_head : AttachHead
a_head = record {
  class = 1;
  mime_hint = [];
  orig_ext = [];
  uncompressed_n = 3;
  chunk_count = 2;
  chunk_bucket = 8;
  content_sha256 = 5 ∷ [];
  caption = [];
  flags = 0;
}

abbrev a_row : AttachmentRow
a_row = head_row (1 ∷ []) (9 ∷ []) a_head none 100

-- The second chunk came before the first.
abbrev a_db : AttachDb
a_db = record {
  attachments = a_row ∷ [];
  attachment_chunks =
      record { head_id = 9 ∷ []; idx = 0; bytes = 5 ∷ 6 ∷ []; rel_id = 1 ∷ []; created_at = 101 }
      ∷ record { head_id = 9 ∷ []; idx = 1; bytes = 7 ∷ []; rel_id = 1 ∷ []; created_at = 100 }
      ∷ [];
}

try_complete-IsVerified_example :
    IsWaiting first_byte_hash (9 ∷ []) a_row a_db (try_complete first_byte_hash (9 ∷ []) a_db)
    ⊎ (IsFailed first_byte_hash (9 ∷ []) a_row a_db (try_complete first_byte_hash (9 ∷ []) a_db)
        ⊎ IsVerified first_byte_hash
            (9 ∷ [])
            a_row
            a_db
            (try_complete first_byte_hash (9 ∷ []) a_db))
unfolding attachment head_row
try_complete-IsVerified_example =
    try_complete-IsVerified first_byte_hash (9 ∷ []) a_row a_db refl refl

abbrev empty_db : AttachDb
empty_db = record { attachments = []; attachment_chunks = [] }

abbrev an_orphan : AttachChunk
an_orphan = record { head_id = 9 ∷ []; index = 1; pad = false; bytes = 7 ∷ [] }

Reach-IsCapped_example :
    IsCapped (on_attach_chunk first_byte_hash (1 ∷ []) an_orphan 100 empty_db).0
Reach-IsCapped_example =
    Reach-IsCapped first_byte_hash
      (on_attach_chunk first_byte_hash (1 ∷ []) an_orphan 100 empty_db).0
      (Reach.chunk empty_db (1 ∷ []) an_orphan 100 Reach.start)

-- The table after the orphan.
abbrev orphan_db : AttachDb
orphan_db = record {
  attachments = [];
  attachment_chunks =
      record { head_id = 9 ∷ []; idx = 1; bytes = 7 ∷ []; rel_id = 1 ∷ []; created_at = 100 } ∷ [];
}

inline_head-appends_example :
    ((on_attach_head first_byte_hash true none
        (1 ∷ [])
        (9 ∷ [])
        (record { head = a_head; inline = some (5 ∷ 6 ∷ []) })
        101
        orphan_db).1
      ≡ ok (attachment_complete (9 ∷ []) (9 ∷ []) ∷ []))
    × (attachment_bytes
          (9 ∷ [])
          (on_attach_head first_byte_hash true none
            (1 ∷ [])
            (9 ∷ [])
            (record { head = a_head; inline = some (5 ∷ 6 ∷ []) })
            101
            orphan_db).0
        ≡ some ((5 ∷ 6 ∷ []) ++ concat (chunks_for (9 ∷ []) orphan_db.attachment_chunks)))
unfolding attachment s_chat6_core.Attach.Store.chunk
inline_head-appends_example =
    inline_head-appends first_byte_hash none (1 ∷ []) (9 ∷ []) (5 ∷ 6 ∷ []) a_head 101 orphan_db
      refl refl refl

abbrev a_plan : AttachPlan
a_plan = made first_byte_hash 1 [] [] a_file [] false

a_plan-made : plan_transfer first_byte_hash 1 [] [] a_file [] false ≡ ok a_plan
a_plan-made =
    made_lem first_byte_hash 1 [] [] a_file [] false (omega (arith, a_file-length))
      (omega (arith, a_file-length))

a_plan-count : length (contents a_plan.chunks) ≡ 2
a_plan-count =
    let (_, count, _, _, _) =
      planned first_byte_hash 1 [] [] a_file [] false a_plan a_plan-made
        (omega (arith, a_file-length)) (omega (arith, a_file-length)) in
    count ∙ ap chunk_count_of a_file-length

-- The second piece comes first, and once more at the end.
abbrev an_order : List ℕ
an_order = 1 ∷ 0 ∷ 1 ∷ []

both_in : (j : ℕ) → j < 2 → elem j an_order ≡ true
both_in zero h = refl
both_in (suc zero) h = refl
both_in (suc (suc j)) h = absurd (omega (arith, h))

an_order-Covers : Covers (9 ∷ []) (1 ∷ []) 100 (contents a_plan.chunks) an_order
an_order-Covers j h = both_in j (omega (arith, h, a_plan-count))

transfer-completes_example :
    (cs' : List ChunkRow) × (deliver (9 ∷ []) (1 ∷ []) 100 (contents a_plan.chunks) an_order []
      ≡ ok cs')
    × ((arrived first_byte_hash none (9 ∷ []) (1 ∷ []) 100 a_plan.head [] cs').1
        ≡ ok (attachment_complete (9 ∷ []) (9 ∷ []) ∷ []))
    × (attachment_bytes
          (9 ∷ [])
          (arrived first_byte_hash none (9 ∷ []) (1 ∷ []) 100 a_plan.head [] cs').0
        ≡ some a_file)
unfolding s_chat6_core.Attach.Store.rows_for attachment
transfer-completes_example =
    transfer-completes first_byte_hash 1 [] [] a_file [] false a_plan none (9 ∷ []) (1 ∷ []) 100 []
      [] an_order a_plan-made (omega (arith, a_file-length)) (omega (arith, a_file-length))
      an_order-Covers refl refl
