-- ===== src/Call/Offer.antt =====
-- `SipCall.onCallSdpCreated` of src/call_manager.py: the offer or answer that a call sends out. The
-- text is that of `prm.sdp.wholeSdp`; an empty one also stands for a missing one.
use pjsua_mcp.Prelude.{true, none, some, List, [], ◌∷◌, map}
use pjsua_mcp.Text.{Text, codes}
use pjsua_mcp.Call.Data.{SipCall}
use pjsua_mcp.Sdp.{filter_audio_codecs}

-- `onCallSdpCreated`: the text that goes out
unfoldable pub on_call_sdp_created : SipCall → Text → Text
unfolding filter_audio_codecs
on_call_sdp_created call sdp = elim call.codecs [
  | none ↦ sdp
  | some List.[] ↦ sdp
  | some (c ∷ cs) ↦ elim sdp [
    | [] ↦ []
    | b ∷ bs ↦ filter_audio_codecs (b ∷ bs) (map codes (c ∷ cs)) true
  ]
]
