-- ===== src/SipLog/Codecs.antt =====
-- The media sections of `parse_sdp_body` of src/sip_logger.py, and their codecs.
use pjsua_mcp.Prelude.{
  ℕ, Bool, false, Option, none, some, List, [], ◌∷◌, map, nat_eq, ◌==◌, or_else, if◌then◌else◌,
}
use pjsua_mcp.Text.{Text, text_eq, codes}
use pjsua_mcp.Text.Scan.{strip, words, partition}
use pjsua_mcp.Dict.{Dict, get}
use pjsua_mcp.Text.Integer.{ℤ, pos, negsuc, int_of_text}

-- An entry of `codecs`; `fmtp` is a key that may be missing.
pub record Codec : Type 0 where
  pub pt : ℤ
  pub name : Text
  pub clock_rate : ℤ
  pub fmtp : Option Text

-- An entry of `media`.
pub record Media : Type 0 where
  pub kind : Text
  pub port : ℤ
  pub protocol : Text
  pub payload_types : List ℤ
  pub codecs : List Codec
  pub direction : Text
  pub rtcp_port : Option ℤ

-- `_STATIC_PT_NAMES`
abbrev static_pt_names : Dict ℕ (Text × ℕ)
static_pt_names =
    (0, (codes "PCMU", 8000))
    ∷ (3, (codes "GSM", 8000))
    ∷ (4, (codes "G723", 8000))
    ∷ (5, (codes "DVI4", 8000))
    ∷ (6, (codes "DVI4", 16000))
    ∷ (7, (codes "LPC", 8000))
    ∷ (8, (codes "PCMA", 8000))
    ∷ (9, (codes "G722", 8000))
    ∷ (10, (codes "L16", 44100))
    ∷ (11, (codes "L16", 44100))
    ∷ (12, (codes "QCELP", 8000))
    ∷ (13, (codes "CN", 8000))
    ∷ (14, (codes "MPA", 90000))
    ∷ (15, (codes "G728", 8000))
    ∷ (16, (codes "DVI4", 11025))
    ∷ (17, (codes "DVI4", 22050))
    ∷ (18, (codes "G729", 8000))
    ∷ []

unfoldable pub static_pt_name : ℤ → Option (Text × ℕ)
unfolding get
static_pt_name (pos n) = get static_pt_names n
static_pt_name (negsuc n) = none

-- The codec of a payload type before any attribute is read.
abbrev pub codec_at : ℤ → Option (Text × ℕ) → Codec
codec_at pt none = record { pt = pt; name = []; clock_rate = pos 0; fmtp = none }
codec_at pt (some (name, rate)) = record {
  pt = pt;
  name = name;
  clock_rate = pos rate;
  fmtp = none;
}

abbrev pub codec_of : ℤ → Codec
codec_of pt = codec_at pt (static_pt_name pt)

-- `[int(p) for p in ps]`, which may raise
abbrev pub ints_of : List Text → Option (List ℤ)
ints_of [] = some []
ints_of (p ∷ ps) = elim (int_of_text p) [
  | none ↦ none
  | some n ↦ elim (ints_of ps) [ none ↦ none | some ns ↦ some (n ∷ ns) ]
]

abbrev pub media_of : Text → Text → ℤ → List ℤ → Media
media_of kind protocol port pts = record {
  kind = kind;
  port = port;
  protocol = protocol;
  payload_types = pts;
  codecs = map codec_of pts;
  direction = codes "sendrecv";
  rtcp_port = none;
}

abbrev pub media_if : Text → Text → Option ℤ → Option (List ℤ) → Option Media
media_if kind protocol (some n) (some ns) = some (media_of kind protocol n ns)
media_if kind protocol _ _ = none

abbrev pub media_of_parts : List Text → Option Media
media_of_parts (kind ∷ port ∷ protocol ∷ pt ∷ pts) =
    media_if kind protocol (int_of_text port) (ints_of (pt ∷ pts))
media_of_parts _ = none

-- `_new_media`
unfoldable pub new_media : Text → Option Media
unfolding words int_of_text static_pt_name
new_media value = media_of_parts (words value)

abbrev int_eq : ℤ → ℤ → Bool
int_eq (pos m) (pos n) = m == n
int_eq (negsuc m) (negsuc n) = m == n
int_eq _ _ = false

-- The first codec with the payload type is changed.
unfoldable pub change_codec : ℤ → (Codec → Codec) → List Codec → List Codec
change_codec pt f [] = []
change_codec pt f (c ∷ cs) =
    let rest = change_codec pt f cs in if int_eq c.pt pt then f c ∷ cs else c ∷ rest

-- `pt_str, rest = value.split(" ", 1)` and `int(pt_str)`, which may raise
abbrev pub pt_and_rest : Text → Option (ℤ × Text)
pt_and_rest value =
    let (pt, rest) = partition b' ' value in
    elim rest [
      | none ↦ none
      | some t ↦ elim (int_of_text pt) [ none ↦ none | some n ↦ some (n, t) ]
    ]

-- The clock rate of `<name>/<rate>[/<channels>]`, from what stands after the name.
abbrev clock_rate_of : Option Text → ℤ
clock_rate_of none = pos 0
clock_rate_of (some t) = or_else (int_of_text (partition b'/' t).0) (pos 0)

abbrev pub set_rtpmap : Text → Codec → Codec
set_rtpmap t c =
    let (name, rate) = partition b'/' t in
    record c { name = strip name; clock_rate = clock_rate_of rate }

abbrev pub set_fmtp : Text → Codec → Codec
set_fmtp t c = record c { fmtp = some (strip t) }

abbrev pub change_at : Option (ℤ × Text) → (Text → Codec → Codec) → Media → Media
change_at none f m = m
change_at (some (pt, t)) f m = record m { codecs = change_codec pt (f t) m.codecs }

-- `_apply_rtpmap`, `_apply_fmtp`
unfoldable pub apply_rtpmap : Text → Media → Media
unfolding partition int_of_text change_codec strip
apply_rtpmap value m = change_at (pt_and_rest value) set_rtpmap m

unfoldable pub apply_fmtp : Text → Media → Media
unfolding partition int_of_text change_codec strip
apply_fmtp value m = change_at (pt_and_rest value) set_fmtp m
