-- ===== src/Sdp/Tests.antt =====
-- The filter of src/sdp_rewriter.py at concrete texts.
use pjsua_mcp.Prelude.{◌≡◌, refl, true, false, none, some, [], ◌∷◌, ◌++◌}
use pjsua_mcp.Text.{Text, codes}
use pjsua_mcp.Text.Scan.{span, strip_prefix, words, has_text}
use pjsua_mcp.Text.Lines.{split_lf, split_crlf, join}
use pjsua_mcp.Call.Data.{new_call}
use pjsua_mcp.Call.Offer.{on_call_sdp_created}
use pjsua_mcp.Sdp.{
  formats, ends_or_slash, m_line, rtpmap, fmtp, static_pt, scan, add_static, scan_audio_blocks,
  dangles, advance, emit, filter_audio_codecs,
}
use pjsua_mcp.Sdp.Reference.{reference}
use pjsua_mcp.Sdp.Filter.{filter_audio_codecs_lem}

-- An offer with one static codec, one dynamic codec and DTMF.
abbrev offer : Text
offer =
    codes "v=0\nm=audio 4000 RTP/AVP 0 98 101\na=rtpmap:98 opus/48000/2\na=fmtp:98 useinbandfec=1\n"
    ++ codes "a=rtpmap:101 telephone-event/8000\na=sendrecv\n"

narrowed :
    on_call_sdp_created (new_call 1 "a" false false (some ("PCMU" ∷ []))) offer
    ≡ codes "v=0\nm=audio 4000 RTP/AVP 0 101\na=rtpmap:101 telephone-event/8000\na=sendrecv\n"
unfolding on_call_sdp_created formats ends_or_slash filter_audio_codecs m_line rtpmap fmtp static_pt
    scan add_static scan_audio_blocks dangles advance emit span strip_prefix words has_text split_lf
    split_crlf join
narrowed = refl

-- A codec that the text names and the block does not offer keeps the block, which is left without any
-- payload type.
bare :
    filter_audio_codecs
      (codes "m=audio 4000 RTP/AVP 0\na=rtpmap:98 opus/48000\n")
      (codes "opus" ∷ [])
      false
    ≡ codes "m=audio 4000 RTP/AVP \na=rtpmap:98 opus/48000\n"
unfolding formats ends_or_slash filter_audio_codecs m_line rtpmap fmtp static_pt scan add_static
    scan_audio_blocks dangles advance emit span strip_prefix words has_text split_lf split_crlf join
bare = refl

-- A newline within a line of the text is no end of a line for the expressions, but stops them.
stopped :
    (rtpmap (codes "a=rtpmap:98 opus/48\n000") ≡ none)
    × (rtpmap (codes "a=rtpmap:98 opus\n") ≡ some (codes "98", codes "opus"))
unfolding rtpmap ends_or_slash strip_prefix span
stopped = (refl, refl)

filter_audio_codecs_lem_example :
    filter_audio_codecs offer (codes "PCMU" ∷ []) true ≡ reference offer (codes "PCMU" ∷ []) true
filter_audio_codecs_lem_example = filter_audio_codecs_lem offer (codes "PCMU" ∷ []) true

abbrev no_media : Text
no_media = codes "v=0\r\nm=video 0 RTP/AVP 96\r\n"
