-- ===== src/Sdp.antt =====
-- `filter_audio_codecs` of src/sdp_rewriter.py, which cuts the audio codecs of an SDP down to an
-- allow-list. The three regular expressions of the file are written out as matchers.
pub mod Reference
pub mod Blocks
pub mod Passes
pub mod Filter
pub mod Tests
use pjsua_mcp.Prelude.{
  ℕ, suc, ◌+◌, Bool, true, false, not, ◌&&◌, ◌||◌, Option, none, some, List, [], ◌∷◌, ◌++◌, map,
  nat_eq, ◌==◌, ltb, leb, keep, any, contains, length, is_some, if◌then◌else◌,
}
use pjsua_mcp.Text.{Text, text_eq, codes, lower}
use pjsua_mcp.Text.Scan.{is_digit, is_word, is_space, span, strip_prefix, has_text, words}
use pjsua_mcp.Text.Lines.{split_lf, split_crlf, join}

-- The groups of `_M_LINE_RE`.
pub record MLine : Type 0 where
  pub media : Text
  pub port : Text
  pub proto : Text
  pub fmts : Text

-- `c+` for a class of characters: what it takes, which is not empty, and the rest
abbrev some_of : (ℕ → Bool) → Text → Option (Text × Text)
some_of p t = let (a, b) = span p t in if a == [] then none else some (a, b)

abbrev is_proto : ℕ → Bool
is_proto c = is_word c || c == b'/'

-- `.*$`: the text up to its end, or up to a newline that ends it; there is no other newline.
unfoldable line_of : Text → Option Text
line_of [] = some []
line_of (c ∷ []) = if c == 10 then some [] else some (c ∷ [])
line_of (c ∷ d ∷ t) =
    let rest = line_of (d ∷ t) in
    if c == 10 then none else elim rest [ none ↦ none | some u ↦ some (c ∷ u) ]

-- Only blanks are left, and the last of them, or the last before a newline, can be the formats.
unfoldable blank_end : Text → Bool
blank_end [] = false
blank_end (a ∷ []) = false
blank_end (a ∷ b ∷ []) = not (b == 10)
blank_end (a ∷ b ∷ c ∷ []) = not (c == 10) || not (b == 10)
blank_end (a ∷ b ∷ c ∷ d ∷ t) = blank_end (b ∷ c ∷ d ∷ t)

-- `\s+(?P<fmts>.+)$`
unfoldable pub formats : Text → Option Text
unfolding span line_of blank_end
formats t = elim (some_of is_space t) [
  | none ↦ none
  | some (blanks, []) ↦ if blank_end blanks then some (32 ∷ []) else none
  | some (blanks, c ∷ rest) ↦ line_of (c ∷ rest)
]

-- `_M_LINE_RE.match`
unfoldable pub m_line : Text → Option MLine
unfolding strip_prefix span formats
m_line line = elim (strip_prefix (codes "m=") line) [
  | none ↦ none
  | some t1 ↦ elim (some_of is_word t1) [
    | none ↦ none
    | some (media, t2) ↦ elim (some_of is_space t2) [
      | none ↦ none
      | some (_, t3) ↦ elim (some_of is_digit t3) [
        | none ↦ none
        | some (port, t4) ↦ elim (some_of is_space t4) [
          | none ↦ none
          | some (_, t5) ↦ elim (some_of is_proto t5) [
            | none ↦ none
            | some (proto, t6) ↦ elim (formats t6) [
              | none ↦ none
              | some fmts ↦ some (record { media = media; port = port; proto = proto; fmts = fmts })
            ]
          ]
        ]
      ]
    ]
  ]
]

abbrev is_name : ℕ → Bool
is_name c = not (c == b'/') && not (is_space c)

-- `(?:/.*)?$`
unfoldable pub ends_or_slash : Text → Bool
unfolding line_of
ends_or_slash [] = true
ends_or_slash (c ∷ t) = if c == b'/' then is_some (line_of t) else c == 10 && t == []

-- `_RTPMAP_RE.match`: the payload type and the name
unfoldable pub rtpmap : Text → Option (Text × Text)
unfolding strip_prefix span ends_or_slash
rtpmap line = elim (strip_prefix (codes "a=rtpmap:") line) [
  | none ↦ none
  | some t1 ↦ elim (some_of is_digit t1) [
    | none ↦ none
    | some (pt, t2) ↦ elim (some_of is_space t2) [
      | none ↦ none
      | some (_, t3) ↦ elim (some_of is_name t3) [
        | none ↦ none
        | some (name, rest) ↦ if ends_or_slash rest then some (pt, name) else none
      ]
    ]
  ]
]

-- `\b` after a digit
abbrev at_boundary : Text → Bool
at_boundary [] = true
at_boundary (c ∷ t) = not (is_word c)

-- `_FMTP_RE.match`: the payload type
unfoldable pub fmtp : Text → Option Text
unfolding strip_prefix span
fmtp line = elim (strip_prefix (codes "a=fmtp:") line) [
  | none ↦ none
  | some t1 ↦ elim (some_of is_digit t1) [
    | none ↦ none
    | some (pt, rest) ↦ if at_boundary rest then some pt else none
  ]
]

-- `_STATIC_PT`
unfoldable pub static_pt : Text → Option Text
static_pt pt =
    if pt == codes "0"
    then some (codes "pcmu")
    else if pt == codes "3"
    then some (codes "gsm")
    else if pt == codes "8"
    then some (codes "pcma")
    else if pt == codes "9"
    then some (codes "g722")
    else if pt == codes "15"
    then some (codes "g728")
    else if pt == codes "18"
    then some (codes "g729")
    else none

-- A block of an audio line: its first line, the line after its last, the payload types of the audio
-- line and those that are kept.
pub record Block : Type 0 where
  pub start : ℕ
  pub stop : ℕ
  pub fmts : List Text
  pub kept : List Text

-- A line of the open block, if there is one: a codec that is allowed is kept.
abbrev pub note_rtpmap : List Text → Text → Option Block → Option Block
note_rtpmap allowed line none = none
note_rtpmap allowed line (some b) = elim (rtpmap line) [
  | none ↦ some b
  | some (pt, name) ↦
      if contains (lower name) allowed then some (record b { kept = pt ∷ b.kept }) else some b
]

abbrev pub closed_at : ℕ → Option Block → List Block → List Block
closed_at i none blocks = blocks
closed_at i (some b) blocks = record b { stop = i } ∷ blocks

abbrev pub opened_at : ℕ → ℕ → MLine → Option Block
opened_at i n m =
    if m.media == codes "audio"
    then some (record { start = i; stop = n; fmts = words m.fmts; kept = [] })
    else none

-- The first pass of `_scan_audio_blocks`, from line `i` of `n`, with the block that is open.
unfoldable pub scan : List Text → ℕ → ℕ → Option Block → List Text → List Block
scan allowed i n cur [] = elim cur [ none ↦ [] | some b ↦ b ∷ [] ]
scan allowed i n cur (line ∷ lines) = elim (m_line line) [
  | none ↦ scan allowed (i + 1) n (note_rtpmap allowed line cur) lines
  | some m ↦ closed_at i cur (scan allowed (i + 1) n (opened_at i n m) lines)
]

abbrev is_static : List Text → Text → Bool
is_static allowed pt = elim (static_pt pt) [ none ↦ false | some name ↦ contains name allowed ]

-- The fallback for payload types that are static.
unfoldable pub add_static : List Text → List Text → List Text → List Text
unfolding static_pt
add_static allowed [] kept = kept
add_static allowed (pt ∷ pts) kept =
    add_static allowed pts
      (if not (contains pt kept) && is_static allowed pt then pt ∷ kept else kept)

abbrev pub with_static : List Text → Block → Block
with_static allowed b = record b { kept = add_static allowed b.fmts b.kept }

-- `_scan_audio_blocks`
unfoldable pub scan_audio_blocks : List Text → List Text → List Block
unfolding scan add_static
scan_audio_blocks lines allowed =
    map (with_static allowed) (scan allowed 0 (length lines) none lines)

-- `_order_fmts`
abbrev pub order_fmts : List Text → List Text → List Text
order_fmts fmts kept = keep (λ f. contains f kept) fmts

-- The audio line, with the formats that are kept.
abbrev pub render : MLine → List Text → Text
render m fmts =
    codes "m=" ++ (m.media ++ (32 ∷ m.port ++ (32 ∷ m.proto ++ (32 ∷ join (32 ∷ []) fmts))))

abbrev is_lost : List Text → Option Text → Bool
is_lost kept none = false
is_lost kept (some pt) = not (contains pt kept)

abbrev pt_of : Option (Text × Text) → Option Text
pt_of none = none
pt_of (some (pt, name)) = some pt

-- An `a=rtpmap` or `a=fmtp` of a payload type that has gone.
unfoldable pub dangles : List Text → Text → Bool
dangles kept line = is_lost kept (pt_of (rtpmap line)) || is_lost kept (fmtp line)

-- `while cur_blk and i >= cur_blk["end"]: …`
unfoldable pub advance : ℕ → List Block → List Block
advance i [] = []
advance i (b ∷ blocks) = let rest = advance i blocks in if leb b.stop i then rest else b ∷ blocks

-- What becomes of line `i` under the block that is current.
abbrev plain_line : ℕ → Text → Block → List Text
plain_line i line b = if ltb b.start i && ltb i b.stop && dangles b.kept line then [] else line ∷ []

abbrev pub emit_line : ℕ → Text → List Block → List Text
emit_line i line [] = line ∷ []
emit_line i line (b ∷ blocks) = elim (m_line line) [
  | none ↦ plain_line i line b
  | some m ↦ if i == b.start then render m (order_fmts b.fmts b.kept) ∷ [] else plain_line i line b
]

-- The loop of `_emit`, from line `i`.
unfoldable pub emit : ℕ → List Text → List Block → List Text
unfolding advance dangles
emit i [] blocks = []
emit i (line ∷ lines) blocks =
    let left = advance i blocks in emit_line i line left ++ emit (i + 1) lines left

abbrev pub is_nil {ℓ} : {A : Type ℓ} → List A → Bool
is_nil [] = true
is_nil (x ∷ xs) = false

-- `{a.lower() for a in allowed if a}`
abbrev pub allowed_set : List Text → List Text
allowed_set allowed = map lower (keep (λ a. not (a == [])) allowed)

abbrev pub filter_lines : List Text → List Text → Option (List Text)
filter_lines lines allowed =
    let blocks = scan_audio_blocks lines allowed in
    if any (λ (b : Block). is_nil b.kept) blocks then none else some (emit 0 lines blocks)

abbrev pub joined : Text → Text → Option (List Text) → Text
joined sdp sep none = sdp
joined sdp sep (some lines) = join sep lines

-- `filter_audio_codecs`
unfoldable pub filter_audio_codecs : Text → List Text → Bool → Text
unfolding scan_audio_blocks emit
filter_audio_codecs sdp allowed preserve_dtmf =
    let wanted = allowed_set allowed in
    let wanted' = if preserve_dtmf then codes "telephone-event" ∷ wanted else wanted in
    if is_nil wanted || is_nil sdp
    then sdp
    else if has_text (codes "\r\n") sdp
    then joined sdp (codes "\r\n") (filter_lines (split_crlf sdp) wanted')
    else joined sdp (codes "\n") (filter_lines (split_lf sdp) wanted')
