-- ===== src/Wire/Tests/Stickers.antt =====
-- Sticker documents, control messages and profiles at concrete bytes.
use s_chat6_core.Common.{
  ℕ, ◌+◌, ◌-◌, ◌%◌, ◌^◌, ◌≤◌, ◌≡◌, refl, arith, List, [], ◌∷◌, ◌++◌, length, replicate, take, drop,
  Bool, true, some, none, ok, err,
}
use s_chat6_core.Common.Bytes.{to_be_bytes}
use s_chat6_core.Common.Utf8.{is_utf8}
use s_chat6_core.Wire.Error.{bad_field, literal}
use s_chat6_core.Wire.Bin.{new_reader}
use s_chat6_core.Wire.Profile.{Profile, decode_profile, encode_profile}
use s_chat6_core.Wire.Profile.{IsShown, decode_profile-IsShown}
use s_chat6_core.Wire.Sticker.{max_pack_doc_bytes}
use s_chat6_core.Wire.Sticker.PackRef.{decode_from}
use s_chat6_core.Wire.Sticker.Ctrl.{StickerCtrl, ack, item_body}
use s_chat6_core.Wire.Sticker.Ctrl.Decode.{decode_ctrl}
use s_chat6_core.Wire.Sticker.Ctrl.Bounds.{IsBounded, decode_ctrl-IsBounded}
use s_chat6_core.Wire.Sticker.Ctrl.Trailer.{bad_trailer-dropped}
use s_chat6_core.Wire.Sticker.PackDoc.{PackDocItem, StickerPackDoc, pack_doc_domain, body_bytes}
use s_chat6_core.Wire.Sticker.PackDoc.Decode.{decode_signed, decode_body, scan_partial}
use s_chat6_core.Wire.Sticker.PackDoc.Accepts.{IsInstallable, decode_signed-IsInstallable}
use s_chat6_core.Wire.Sticker.PackDoc.RoundTrip.{IsSound, pack_doc-round_trip}
use s_chat6_core.Wire.Sticker.Thumbs.{StickerThumbsDoc, encode_thumbs, decode_thumbs}
use s_chat6_core.Wire.Sticker.PackDoc.Scan.{scan_complete}

-- A hash of 32 zeros and a signature that is always good.
abbrev no_hash : List ℕ → List ℕ
no_hash bytes = replicate 32 0

abbrev any_signature : List ℕ → List ℕ → List ℕ → Bool
any_signature pk body sig = true

abbrev an_item : PackDocItem
an_item = record { item_id = 3; w = 100; h = 90; sha256 = replicate 32 0; bytes = 1 ∷ 2 ∷ [] }

abbrev a_pack : StickerPackDoc
a_pack = record {
  pack_id = replicate 16 7;
  kind = 2;
  visibility = 1;
  title = 104 ∷ 105 ∷ [];
  icon_item_id = 3;
  items = an_item ∷ [];
}

abbrev a_body : List ℕ
a_body =
    pack_doc_domain
    ++ (replicate 16 7
        ++ (2
            ∷ 1
            ∷ 0
            ∷ 0
            ∷ 0
            ∷ 2
            ∷ 104
            ∷ 105
            ∷ 0
            ∷ 3
            ∷ 0
            ∷ 1
            ∷ 0
            ∷ 3
            ∷ 0
            ∷ 100
            ∷ 0
            ∷ 90
            ∷ (replicate 32 0 ++ (0 ∷ 0 ∷ 0 ∷ 2 ∷ 1 ∷ 2 ∷ []))))

a_pack-encoded : body_bytes a_pack ≡ ok a_body
unfolding body_bytes s_chat6_core.Wire.Sticker.valid_kind s_chat6_core.Wire.Sticker.valid_visibility
    s_chat6_core.Wire.Sticker.max_items s_chat6_core.Wire.Sticker.item_ok to_be_bytes
a_pack-encoded = refl

a_pack-IsSound : IsSound no_hash a_pack
unfolding is_utf8 s_chat6_core.Common.Utf8.char_count
    s_chat6_core.Wire.Sticker.PackDoc.Decode.has_item
a_pack-IsSound = record {
  id_16 = refl;
  icon_u16 = omega arith;
  title_utf8 = refl;
  title_short = refl;
  typed = (
    record { id_u16 = omega arith; w_u16 = omega arith; h_u16 = omega arith; sha_32 = refl },
    tt,
  );
  hashed = (refl, tt);
  icon = refl;
}

pack_doc-round_trip_example : decode_body no_hash a_body ≡ ok a_pack
pack_doc-round_trip_example =
    pack_doc-round_trip no_hash a_pack a_body a_pack-IsSound a_pack-encoded

scan_complete_example : scan_partial (a_body ++ replicate 64 0) ≡ some (1, 1)
scan_complete_example =
    scan_complete a_pack a_body (replicate 64 0) refl (omega arith) a_pack-IsSound.typed
      a_pack-encoded (omega arith)

a_blob-decoded :
    decode_signed no_hash any_signature (replicate 32 1) (a_body ++ replicate 64 0) ≡ ok a_pack
unfolding decode_signed s_chat6_core.Wire.Bin.take_bytes new_reader s_chat6_core.Wire.Bin.u8
    s_chat6_core.Wire.Sticker.valid_kind s_chat6_core.Wire.Sticker.valid_visibility
    s_chat6_core.Wire.Bin.lp s_chat6_core.Common.Bytes.from_be_bytes is_utf8
    s_chat6_core.Common.Utf8.char_count s_chat6_core.Wire.Bin.u16be
    s_chat6_core.Wire.Sticker.max_items s_chat6_core.Wire.Sticker.max_bytes
    s_chat6_core.Wire.Sticker.item_ok s_chat6_core.Wire.Bin.expect_end
a_blob-decoded = refl

decode_signed-IsInstallable_example :
    (length (a_body ++ replicate 64 0) ≤ max_pack_doc_bytes)
    × (any_signature
          (replicate 32 1)
          (take (length (a_body ++ replicate 64 0) - 64) (a_body ++ replicate 64 0))
          (drop (length (a_body ++ replicate 64 0) - 64) (a_body ++ replicate 64 0))
        ≡ true)
    × IsInstallable no_hash a_pack
decode_signed-IsInstallable_example =
    decode_signed-IsInstallable no_hash any_signature (replicate 32 1) (a_body ++ replicate 64 0)
      a_pack a_blob-decoded

an_ack-decoded : decode_ctrl (1 ∷ 1 ∷ replicate 32 5) ≡ ok (ack (replicate 32 5))
unfolding decode_ctrl s_chat6_core.Wire.Bin.u8 new_reader
    s_chat6_core.Wire.Sticker.Ctrl.Decode.decode_ack s_chat6_core.Wire.Bin.expect_end
an_ack-decoded = refl

decode_ctrl-IsBounded_example : IsBounded (ack (replicate 32 5))
decode_ctrl-IsBounded_example =
    decode_ctrl-IsBounded (1 ∷ 1 ∷ replicate 32 5) (ack (replicate 32 5)) an_ack-decoded

abbrev a_chunk : List ℕ
a_chunk =
    1
    ∷ 3
    ∷ (replicate 32 5
        ++ (to_be_bytes 2 0
            ++ (to_be_bytes 2 1
                ++ (to_be_bytes 4 (2 % 2 ^ 32) ++ ((8 ∷ 9 ∷ []) ++ replicate 56 0)))))

no_pack_ref :
    decode_from (new_reader (replicate 56 0))
    ≡ err (bad_field "pack_ref.kind" (literal "unknown kind/visibility"))
unfolding decode_from s_chat6_core.Wire.Bin.take_bytes new_reader s_chat6_core.Wire.Bin.u8
    s_chat6_core.Wire.Sticker.valid_kind
no_pack_ref = refl

bad_trailer-dropped_example :
    decode_ctrl a_chunk ≡ ok (item_body (replicate 32 5) 0 1 (8 ∷ 9 ∷ []) none)
unfolding s_chat6_core.Wire.Sticker.Ctrl.plan_ok
bad_trailer-dropped_example =
    bad_trailer-dropped (replicate 32 5) 0 1 (8 ∷ 9 ∷ []) (replicate 56 0)
      (bad_field "pack_ref.kind" (literal "unknown kind/visibility")) refl (omega arith)
      (omega arith) refl (omega arith) refl no_pack_ref

abbrev no_nfc : List ℕ → List ℕ
no_nfc name = name

abbrev a_profile : Profile
a_profile = record { name = 104 ∷ 105 ∷ []; jpeg = 0xff ∷ 0xd8 ∷ 0 ∷ [] }

abbrev profile_bytes : List ℕ
profile_bytes = 1 ∷ 0 ∷ 0 ∷ 0 ∷ 2 ∷ 104 ∷ 105 ∷ 0 ∷ 0 ∷ 0 ∷ 3 ∷ 0xff ∷ 0xd8 ∷ 0 ∷ []

a_profile-decoded : decode_profile no_nfc profile_bytes ≡ ok a_profile
unfolding decode_profile s_chat6_core.Wire.Bin.u8 new_reader s_chat6_core.Wire.Bin.lp
    s_chat6_core.Common.Bytes.from_be_bytes is_utf8 s_chat6_core.Wire.Profile.name_ok
    s_chat6_core.Common.Utf8.has_control s_chat6_core.Wire.Bin.expect_end
    s_chat6_core.Wire.Profile.jpeg_ok
a_profile-decoded = refl

decode_profile-IsShown_example :
    IsShown no_nfc a_profile
    × ((out : List ℕ) × (encode_profile no_nfc a_profile ≡ ok out)
        × (decode_profile no_nfc out ≡ ok a_profile))
decode_profile-IsShown_example =
    decode_profile-IsShown no_nfc profile_bytes a_profile a_profile-decoded

abbrev a_preview : StickerThumbsDoc
a_preview = record {
  title = 104 ∷ 105 ∷ [];
  kind = 1;
  icon_item_id = 4;
  thumbs = record { item_id = 4; bytes = 7 ∷ [] } ∷ [];
}

abbrev preview_bytes : List ℕ
preview_bytes = 0 ∷ 0 ∷ 0 ∷ 2 ∷ 104 ∷ 105 ∷ 1 ∷ 0 ∷ 4 ∷ 0 ∷ 1 ∷ 0 ∷ 4 ∷ 0 ∷ 0 ∷ 0 ∷ 1 ∷ 7 ∷ []

a_preview-encoded : encode_thumbs a_preview ≡ ok preview_bytes
unfolding encode_thumbs s_chat6_core.Wire.Sticker.valid_kind s_chat6_core.Wire.Sticker.max_items
    to_be_bytes
a_preview-encoded = refl

a_preview-IsSound : s_chat6_core.Wire.Sticker.Thumbs.RoundTrip.IsSound a_preview
unfolding is_utf8 s_chat6_core.Common.Utf8.char_count
a_preview-IsSound = record {
  title_utf8 = refl;
  title_short = refl;
  icon_u16 = omega arith;
  typed = (omega arith, tt);
}
