-- ===== src/SipLog/SdpBody.antt =====
-- `parse_sdp_body` of src/sip_logger.py.
use pjsua_mcp.Prelude.{
  Bool, ◌&&◌, ◌||◌, Option, none, some, List, [], ◌∷◌, ◌++◌, any, nat_eq, ◌==◌, or_else, length,
  if◌then◌else◌,
}
use pjsua_mcp.Text.{Text, text_eq, codes, lower, starts_with}
use pjsua_mcp.Text.Scan.{has_text, rstrip, words, partition}
use pjsua_mcp.Text.Lines.{split_lf}
use pjsua_mcp.Text.Integer.{ℤ, pos, int_of_text}
use pjsua_mcp.SipLog.Headers.{replace_crlf}
use pjsua_mcp.SipLog.Codecs.{Media, new_media, apply_rtpmap, apply_fmtp}

-- What the loop has gathered: `version`, `origin` with its user and its address, `media` and
-- `current_media`.
pub record Gathered : Type 0 where
  pub version : Option ℤ
  pub origin : Option (Text × Text)
  pub media : List Media
  pub current : Option Media

abbrev pub set_port : Option ℤ → Media → Media
set_port none m = m
set_port (some n) m = record m { rtcp_port = some n }

abbrev pub set_rtcp : List Text → Media → Media
set_rtcp [] m = m
set_rtcp (p ∷ ps) m = set_port (int_of_text p) m

abbrev pub is_direction : Text → Bool
is_direction t =
    t == codes "sendrecv" || t == codes "sendonly" || t == codes "recvonly" || t == codes "inactive"

-- An `a=` line inside a media section.
unfoldable pub apply_attribute : Text → Media → Media
unfolding apply_rtpmap apply_fmtp partition words int_of_text
apply_attribute value m =
    let (name, rest) = partition b':' value in
    let low = lower name in
    let attr_val = or_else rest [] in
    if low == codes "rtpmap"
    then apply_rtpmap attr_val m
    else if low == codes "fmtp"
    then apply_fmtp attr_val m
    else if low == codes "rtcp"
    then set_rtcp (words attr_val) m
    else if is_direction low
    then record m { direction = low }
    else m

-- "close out previous if any"
abbrev pub closed_media : Option Media → List Media → List Media
closed_media none media = media
closed_media (some m) media = media ++ m ∷ []

abbrev pub set_version : Option ℤ → Gathered → Gathered
set_version none g = g
set_version (some n) g = record g { version = some n }

abbrev pub set_origin : List Text → Gathered → Gathered
set_origin (user ∷ id ∷ ver ∷ net ∷ kind ∷ ip ∷ rest) g = record g { origin = some (user, ip) }
set_origin _ g = g

abbrev pub in_media : Option Media → Text → Option Media
in_media none value = none
in_media (some m) value = some (apply_attribute value m)

abbrev pub add_field : Text → Text → Gathered → Gathered
add_field kind value g =
    if kind == codes "v"
    then set_version (int_of_text value) g
    else if kind == codes "o"
    then set_origin (words value) g
    else if kind == codes "m"
    then record g { media = closed_media g.current g.media; current = new_media value }
    else if kind == codes "a"
    then record g { current = in_media g.current value }
    else g

-- The loop's body.
unfoldable pub add_sdp_line : Text → Gathered → Gathered
unfolding rstrip partition apply_attribute new_media int_of_text words
add_sdp_line raw g =
    let (kind, value) = partition b'=' (rstrip raw) in
    elim value [ none ↦ g | some v ↦ add_field kind v g ]

abbrev pub add_sdp_lines : List Text → Gathered → Gathered
add_sdp_lines [] g = g
add_sdp_lines (line ∷ lines) g = add_sdp_lines lines (add_sdp_line line g)

abbrev pub nothing_yet : Gathered
nothing_yet = record { version = none; origin = none; media = []; current = none }

-- The dictionary that comes back.
pub record SdpBody : Type 0 where
  pub version : ℤ
  pub origin : Option (Text × Text)
  pub media : List Media

-- "if version is None and not media"
abbrev pub unless_empty : Option ℤ → SdpBody → Option SdpBody
unless_empty (some n) b = some b
unless_empty none b = if length b.media == 0 then none else some b

abbrev pub body_of : Gathered → Option SdpBody
body_of g = unless_empty g.version (record {
  version = or_else g.version (pos 0);
  origin = g.origin;
  media = closed_media g.current g.media;
})

-- `parse_sdp_body`; a missing text is an empty one.
unfoldable pub parse_sdp_body : Text → Option SdpBody
unfolding replace_crlf split_lf has_text add_sdp_line
parse_sdp_body text =
    let lines = split_lf (replace_crlf text) in
    if has_text (codes "v=") text && any (λ line. starts_with line (codes "v=")) lines
    then body_of (add_sdp_lines lines nothing_yet)
    else none
