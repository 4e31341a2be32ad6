-- ===== src/SipLog/PayloadTypes.antt =====
-- The payload types and the codecs of a media section that `parse_sdp_body` of src/sip_logger.py gives.
use pjsua_mcp.Prelude.{
  ℕ, if_holds, ◌≡◌, refl, ap, ◌∙◌, ◌&&◌, Option, none, some, List, [], ◌∷◌, map, arith, nat_eq,
  ◌==◌, any, All, or_else, length, Option-cases, inl, inr,
}
use pjsua_mcp.Text.{Text, text_eq, codes, lower, starts_with}
use pjsua_mcp.Text.Scan.{words, partition, rstrip, has_text}
use pjsua_mcp.Text.Lines.{split_lf}
use pjsua_mcp.SipLog.Headers.{replace_crlf}
use pjsua_mcp.Text.Integer.{ℤ, pos, int_of_text}
use pjsua_mcp.SipLog.Codecs.{
  Codec, Media, codec_at, codec_of, ints_of, media_if, media_of_parts, new_media, change_codec,
  set_rtpmap, set_fmtp, change_at, static_pt_name, pt_and_rest, apply_rtpmap, apply_fmtp,
}
use pjsua_mcp.SipLog.SdpBody.{
  Gathered, set_port, set_rtcp, set_version, set_origin, is_direction, apply_attribute,
  closed_media, in_media, add_field, add_sdp_line, add_sdp_lines, SdpBody, unless_empty, body_of,
  parse_sdp_body, nothing_yet,
}

-- The codecs are those of the payload types, in their order.
abbrev pub IsAligned : Media → Type 0
IsAligned m = map (λ (c : Codec). c.pt) m.codecs ≡ m.payload_types

abbrev IsAlignedIf : Option Media → Type 0
IsAlignedIf none = Unit
IsAlignedIf (some m) = IsAligned m

-- A change of a codec that leaves its payload type.
abbrev KeepsPt : (Codec → Codec) → Type 0
KeepsPt f = (c : Codec) → (f c).pt ≡ c.pt

pts-change_codec :
    (pt : ℤ) (f : Codec → Codec) (cs : List Codec)
    → KeepsPt f
    → map (λ (c : Codec). c.pt) (change_codec pt f cs) ≡ map (λ (c : Codec). c.pt) cs
unfolding change_codec
pts-change_codec pt f [] h = refl
pts-change_codec pt f (c ∷ cs) h = ground (arith, h c, pts-change_codec pt f cs h)

change_at-IsAligned :
    (o : Option (ℤ × Text)) (f : Text → Codec → Codec) (m : Media)
    → ((t : Text) → KeepsPt (f t))
    → IsAligned m
    → IsAligned (change_at o f m)
change_at-IsAligned none f m h a = a
change_at-IsAligned (some (pt, t)) f m h a = pts-change_codec pt (f t) m.codecs (h t) ∙ a

set_port-IsAligned : (o : Option ℤ) (m : Media) → IsAligned m → IsAligned (set_port o m)
set_port-IsAligned none m a = a
set_port-IsAligned (some n) m a = a

set_rtcp-IsAligned : (ps : List Text) (m : Media) → IsAligned m → IsAligned (set_rtcp ps m)
set_rtcp-IsAligned [] m a = a
set_rtcp-IsAligned (p ∷ ps) m a = set_port-IsAligned (int_of_text p) m a

apply_attribute-IsAligned :
    (value : Text) (m : Media) → IsAligned m → IsAligned (apply_attribute value m)
unfolding apply_attribute apply_rtpmap apply_fmtp
apply_attribute-IsAligned value m a =
    let (name, rest) = partition b':' value in
    let low = lower name in
    let at = pt_and_rest (or_else rest []) in
    if_holds IsAligned (low == codes "rtpmap") (change_at-IsAligned at set_rtpmap m (λ t c. refl) a)
      (if_holds IsAligned (low == codes "fmtp") (change_at-IsAligned at set_fmtp m (λ t c. refl) a)
        (if_holds IsAligned (low == codes "rtcp") (set_rtcp-IsAligned (words (or_else rest [])) m a)
          (if_holds IsAligned (is_direction low) a a)))

pt-codec_at : (n : ℤ) (o : Option (Text × ℕ)) → (codec_at n o).pt ≡ n
pt-codec_at n none = refl
pt-codec_at n (some found) = refl

pts-codec_of : (ns : List ℤ) → map (λ (c : Codec). c.pt) (map codec_of ns) ≡ ns
pts-codec_of [] = refl
pts-codec_of (n ∷ ns) =
    ap (λ k. k ∷ map (λ (c : Codec). c.pt) (map codec_of ns)) (pt-codec_at n (static_pt_name n))
    ∙ ap (λ ks. n ∷ ks) (pts-codec_of ns)

media_if-IsAlignedIf :
    (kind protocol : Text) (o : Option ℤ) (p : Option (List ℤ))
    → IsAlignedIf (media_if kind protocol o p)
media_if-IsAlignedIf kind protocol none p = tt
media_if-IsAlignedIf kind protocol (some n) none = tt
media_if-IsAlignedIf kind protocol (some n) (some ns) = pts-codec_of ns

media_of_parts-IsAlignedIf : (ps : List Text) → IsAlignedIf (media_of_parts ps)
media_of_parts-IsAlignedIf [] = tt
media_of_parts-IsAlignedIf (kind ∷ []) = tt
media_of_parts-IsAlignedIf (kind ∷ port ∷ []) = tt
media_of_parts-IsAlignedIf (kind ∷ port ∷ protocol ∷ []) = tt
media_of_parts-IsAlignedIf (kind ∷ port ∷ protocol ∷ pt ∷ pts) =
    media_if-IsAlignedIf kind protocol (int_of_text port) (ints_of (pt ∷ pts))

IsGood : Gathered → Type 0
IsGood g = All IsAligned g.media × IsAlignedIf g.current

closed_media-All :
    (o : Option Media) (ms : List Media)
    → All IsAligned ms
    → IsAlignedIf o
    → All IsAligned (closed_media o ms)
closed_media-All none ms h a = h
closed_media-All (some m) [] h a = (a, tt)
closed_media-All (some m) (n ∷ ms) (b, h) a = (b, closed_media-All (some m) ms h a)

in_media-IsAlignedIf :
    (o : Option Media) (value : Text) → IsAlignedIf o → IsAlignedIf (in_media o value)
in_media-IsAlignedIf none value a = tt
in_media-IsAlignedIf (some m) value a = apply_attribute-IsAligned value m a

set_version-IsGood : (o : Option ℤ) (g : Gathered) → IsGood g → IsGood (set_version o g)
unfolding IsGood
set_version-IsGood none g h = h
set_version-IsGood (some n) g h = h

set_origin-IsGood : (ps : List Text) (g : Gathered) → IsGood g → IsGood (set_origin ps g)
unfolding IsGood
set_origin-IsGood [] g h = h
set_origin-IsGood (a ∷ []) g h = h
set_origin-IsGood (a ∷ b ∷ []) g h = h
set_origin-IsGood (a ∷ b ∷ c ∷ []) g h = h
set_origin-IsGood (a ∷ b ∷ c ∷ d ∷ []) g h = h
set_origin-IsGood (a ∷ b ∷ c ∷ d ∷ e ∷ []) g h = h
set_origin-IsGood (a ∷ b ∷ c ∷ d ∷ e ∷ f ∷ rest) g h = h

add_field-IsGood : (kind value : Text) (g : Gathered) → IsGood g → IsGood (add_field kind value g)
unfolding IsGood new_media
add_field-IsGood kind value g h =
    if_holds IsGood (kind == codes "v") (set_version-IsGood (int_of_text value) g h) (
      if_holds IsGood (kind == codes "o") (set_origin-IsGood (words value) g h) (
        if_holds IsGood (kind == codes "m")
          (closed_media-All g.current g.media (h.0) (h.1), media_of_parts-IsAlignedIf (words value))
          (if_holds IsGood (kind == codes "a") (h.0, in_media-IsAlignedIf g.current value (h.1))
            h)))

add_sdp_line-IsGood : (raw : Text) (g : Gathered) → IsGood g → IsGood (add_sdp_line raw g)
unfolding add_sdp_line
add_sdp_line-IsGood raw g h =
    let (kind, value) = partition b'=' (rstrip raw) in
    elim (Option-cases value) [
      | inl e ↦ rw (e, add_sdp_line) h
      | inr (v, e) ↦ rw (e, add_sdp_line) (add_field-IsGood kind v g h)
    ]

add_sdp_lines-IsGood :
    (lines : List Text) (g : Gathered) → IsGood g → IsGood (add_sdp_lines lines g)
add_sdp_lines-IsGood [] g h = h
add_sdp_lines-IsGood (line ∷ lines) g h =
    add_sdp_lines-IsGood lines (add_sdp_line line g) (add_sdp_line-IsGood line g h)

-- The media sections of a body, and of no body.
abbrev pub sections : Option SdpBody → List Media
sections none = []
sections (some b) = b.media

unless_empty-All :
    (o : Option ℤ) (b : SdpBody)
    → All IsAligned b.media
    → All IsAligned (sections (unless_empty o b))
unless_empty-All (some n) b h = h
unless_empty-All none b h = if_holds (λ o. All IsAligned (sections o)) (length b.media == 0) tt h

body_of-IsGood : (g : Gathered) → IsGood g → All IsAligned (sections (body_of g))
unfolding IsGood
body_of-IsGood g h =
    unless_empty-All g.version
      (record {
        version = or_else g.version (pos 0);
        origin = g.origin;
        media = closed_media g.current g.media;
      })
      (closed_media-All g.current g.media (h.0) (h.1))

nothing_yet-IsGood : IsGood nothing_yet
unfolding IsGood
nothing_yet-IsGood = (tt, tt)

-- Whatever the text, each media section that comes back has one codec for each of its payload types,
-- in the same order: the attributes fill the codecs in and neither add one nor drop one.
pub parse_sdp_body-IsAligned : (text : Text) → All IsAligned (sections (parse_sdp_body text))
unfolding parse_sdp_body
parse_sdp_body-IsAligned text =
    let lines = split_lf (replace_crlf text) in
    if_holds (λ o. All IsAligned (sections o))
      (has_text (codes "v=") text && any (λ line. starts_with line (codes "v=")) lines)
      (body_of-IsGood (add_sdp_lines lines nothing_yet)
        (add_sdp_lines-IsGood lines nothing_yet nothing_yet-IsGood))
      tt
