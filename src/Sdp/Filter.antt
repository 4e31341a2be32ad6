-- ===== src/Sdp/Filter.antt =====
-- `filter_audio_codecs` of src/sdp_rewriter.py as a whole.
use pjsua_mcp.Prelude.{
  Bool, false, none, some, List, [], ◌∷◌, ◌≡◌, refl, any, arith, ◌==◌, Bool-cases, inl, inr,
}
use pjsua_mcp.Text.{Text, text_eq, codes}
use pjsua_mcp.Text.Lines.{split_lf, split_crlf, join, join-split_lf, join-split_crlf}
use pjsua_mcp.Sdp.{m_line, filter_lines, filter_audio_codecs, joined}
use pjsua_mcp.Sdp.Reference.{rewrite_lines, starves, filtered, reference, wanted_codecs}
use pjsua_mcp.Sdp.Passes.{emit-scan_audio_blocks}
use pjsua_mcp.Sdp.Blocks.{starved-scan_audio_blocks}

joined-filter_lines :
    (sdp sep : Text) (lines allowed : List Text)
    → joined sdp sep (filter_lines lines allowed) ≡ filtered sdp sep lines allowed
joined-filter_lines sdp sep lines allowed = elim (Bool-cases (starves allowed lines)) [
  | inl e ↦ rw (starved-scan_audio_blocks allowed lines, e)
  | inr e ↦ rw (starved-scan_audio_blocks allowed lines, e, emit-scan_audio_blocks allowed lines)
]

-- The filter of audio codecs, which scans for blocks by line numbers and then writes the lines in a
-- second pass, is the reference, which goes through the lines once: inside an audio block it keeps
-- the payload types that an `a=rtpmap` names with a codec that is allowed or that are static with
-- such a name, drops the `a=rtpmap` and `a=fmtp` lines of the others, and copies every other line;
-- the text comes back as it was where no codec is allowed, and where an audio block has nothing to keep:
-- no codec that is allowed, neither among the static ones of its m= line nor by an a=rtpmap line, which
-- counts also where the m= line does not list its payload type.
pub filter_audio_codecs_lem :
    (sdp : Text) (allowed : List Text) (preserve_dtmf : Bool)
    → filter_audio_codecs sdp allowed preserve_dtmf ≡ reference sdp allowed preserve_dtmf
unfolding filter_audio_codecs
filter_audio_codecs_lem sdp allowed preserve_dtmf =
    let wanted = wanted_codecs allowed preserve_dtmf in
    rw (
      joined-filter_lines sdp (codes "\r\n") (split_crlf sdp) wanted,
      joined-filter_lines sdp (codes "\n") (split_lf sdp) wanted,
    )

-- The line is the first line of an audio block.
abbrev pub is_audio : Text → Bool
is_audio line = elim (m_line line) [ none ↦ false | some m ↦ m.media == codes "audio" ]

no_audio_lines :
    (allowed lines : List Text)
    → any is_audio lines ≡ false
    → (starves allowed lines ≡ false) × (rewrite_lines allowed none lines ≡ lines)
unfolding starves rewrite_lines
no_audio_lines allowed [] h = (refl, refl)
no_audio_lines allowed (line ∷ lines) h = ground (arith, no_audio_lines allowed lines)

filtered-no_audio :
    (sdp sep : Text) (lines allowed : List Text)
    → any is_audio lines ≡ false
    → join sep lines ≡ sdp
    → filtered sdp sep lines allowed ≡ sdp
filtered-no_audio sdp sep lines allowed h e = ground (arith, no_audio_lines allowed lines h)

-- A text without an audio line, whatever its line ends, comes back as it was.
pub filter_audio_codecs-no_audio :
    (sdp : Text) (allowed : List Text) (preserve_dtmf : Bool)
    → any is_audio (split_crlf sdp) ≡ false
    → any is_audio (split_lf sdp) ≡ false
    → filter_audio_codecs sdp allowed preserve_dtmf ≡ sdp
filter_audio_codecs-no_audio sdp allowed preserve_dtmf h k =
    let wanted = wanted_codecs allowed preserve_dtmf in
    rw
      (
        filter_audio_codecs_lem sdp allowed preserve_dtmf,
        filtered-no_audio sdp (codes "\r\n") (split_crlf sdp) wanted h (join-split_crlf sdp),
        filtered-no_audio sdp (codes "\n") (split_lf sdp) wanted k (join-split_lf sdp),
      )
      (ground arith)
