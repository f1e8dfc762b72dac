-- ===== src/Wire/Envelope/Union.antt =====
-- The `Payload` of crates/wire-types/src/envelope.rs: one variant for each envelope type, and the codec of
-- each.
use s_chat6_core.Common.{ℕ, List, [], ok, ◌>>=◌, ◌>>◌}
use s_chat6_core.Wire.Error.{Wire}
use s_chat6_core.Wire.Envelope.{EnvelopeType}
use s_chat6_core.Wire.Text.{Msg, encode_msg, decode_msg, Edit, encode_edit, decode_edit}
use s_chat6_core.Wire.Profile.{Profile, encode_profile, decode_profile}
use s_chat6_core.Wire.Payload.{
  Typing, encode_typing, decode_typing, Presence, encode_presence, decode_presence, Pref,
  encode_pref, decode_pref, ResyncReq, encode_resync, decode_resync, decode_empty,
}
use s_chat6_core.Wire.Policy.{ChatPolicy, encode_payload, decode_payload}
use s_chat6_core.Wire.Attach.Chunk.{AttachChunk, encode_chunk, decode_chunk}
use s_chat6_core.Wire.Attach.Decode.{HeadPayload, encode_head, decode_head}
use s_chat6_core.Wire.Sticker.Item.{StickerItem, encode_item, decode_item}
use s_chat6_core.Wire.Sticker.Ctrl.{StickerCtrl, encode_ctrl}
use s_chat6_core.Wire.Sticker.Ctrl.Decode.{decode_ctrl}

-- A payload without a field is its variant.
pub data Payload : Type 0 where
  msg : Msg → Payload
  edit : Edit → Payload
  delete : Payload
  delete_all : Payload
  resync_req : ResyncReq → Payload
  attach_head : HeadPayload → Payload
  attach_chunk : AttachChunk → Payload
  contact_close : Payload
  profile : Profile → Payload
  pref : Pref → Payload
  profile_req : Payload
  sticker : StickerItem → Payload
  sticker_ctrl : StickerCtrl → Payload
  presence : Presence → Payload
  chat_policy : ChatPolicy → Payload
  typing : Typing → Payload
  read : Payload

unfoldable pub envelope_type : Payload → EnvelopeType
envelope_type (msg p) = EnvelopeType.msg
envelope_type (edit p) = EnvelopeType.edit
envelope_type delete = EnvelopeType.delete
envelope_type delete_all = EnvelopeType.delete_all
envelope_type (resync_req p) = EnvelopeType.resync_req
envelope_type (attach_head p) = EnvelopeType.attach_head
envelope_type (attach_chunk p) = EnvelopeType.attach_chunk
envelope_type contact_close = EnvelopeType.contact_close
envelope_type (profile p) = EnvelopeType.profile
envelope_type (pref p) = EnvelopeType.pref
envelope_type profile_req = EnvelopeType.profile_req
envelope_type (sticker p) = EnvelopeType.sticker
envelope_type (sticker_ctrl p) = EnvelopeType.sticker_ctrl
envelope_type (presence p) = EnvelopeType.presence
envelope_type (chat_policy p) = EnvelopeType.chat_policy
envelope_type (typing p) = EnvelopeType.typing
envelope_type read = EnvelopeType.read

module _ (nfc : List ℕ → List ℕ) where
  unfoldable pub encode_union : Payload → Wire (List ℕ)
  encode_union (msg p) = encode_msg p
  encode_union (edit p) = encode_edit p
  encode_union delete = ok []
  encode_union delete_all = ok []
  encode_union (resync_req p) = encode_resync p
  encode_union (attach_head p) = encode_head p
  encode_union (attach_chunk p) = encode_chunk p
  encode_union contact_close = ok []
  encode_union (profile p) = encode_profile nfc p
  encode_union (pref p) = encode_pref p
  encode_union profile_req = ok []
  encode_union (sticker p) = encode_item p
  encode_union (sticker_ctrl p) = encode_ctrl p
  encode_union (presence p) = encode_presence p
  encode_union (chat_policy p) = encode_payload p
  encode_union (typing p) = encode_typing p
  encode_union read = ok []

  unfoldable pub decode_union : EnvelopeType → List ℕ → Wire Payload
  unfolding decode_empty
  decode_union EnvelopeType.msg bytes = decode_msg bytes >>= λ p. ok (msg p)
  decode_union EnvelopeType.edit bytes = decode_edit bytes >>= λ p. ok (edit p)
  decode_union EnvelopeType.delete bytes = decode_empty bytes "delete" >> ok delete
  decode_union EnvelopeType.delete_all bytes = decode_empty bytes "delete_all" >> ok delete_all
  decode_union EnvelopeType.resync_req bytes = decode_resync bytes >>= λ p. ok (resync_req p)
  decode_union EnvelopeType.attach_head bytes = decode_head bytes >>= λ p. ok (attach_head p)
  decode_union EnvelopeType.attach_chunk bytes = decode_chunk bytes >>= λ p. ok (attach_chunk p)
  decode_union EnvelopeType.contact_close bytes =
      decode_empty bytes "contact_close" >> ok contact_close
  decode_union EnvelopeType.profile bytes = decode_profile nfc bytes >>= λ p. ok (profile p)
  decode_union EnvelopeType.pref bytes = decode_pref bytes >>= λ p. ok (pref p)
  decode_union EnvelopeType.profile_req bytes = decode_empty bytes "profile_req" >> ok profile_req
  decode_union EnvelopeType.sticker bytes = decode_item bytes >>= λ p. ok (sticker p)
  decode_union EnvelopeType.sticker_ctrl bytes = decode_ctrl bytes >>= λ p. ok (sticker_ctrl p)
  decode_union EnvelopeType.presence bytes = decode_presence bytes >>= λ p. ok (presence p)
  decode_union EnvelopeType.chat_policy bytes = decode_payload bytes >>= λ p. ok (chat_policy p)
  decode_union EnvelopeType.typing bytes = decode_typing bytes >>= λ p. ok (typing p)
  decode_union EnvelopeType.read bytes = decode_empty bytes "read" >> ok read
