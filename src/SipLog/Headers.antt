-- ===== src/SipLog/Headers.antt =====
-- `parse_sip_headers` and `_canonical_header_name` of src/sip_logger.py.
use pjsua_mcp.Prelude.{
  Bool, true, ◌&&◌, ◌||◌, Option, none, some, List, [], ◌∷◌, ◌++◌, nat_eq, ◌==◌, if◌then◌else◌,
}
use pjsua_mcp.Text.{Text, text_eq, codes, lower, upper_code, starts_with}
use pjsua_mcp.Text.Scan.{strip, rstrip, partition}
use pjsua_mcp.Text.Lines.{split_lf}
use pjsua_mcp.Dict.{Dict, get, set}

-- `_HEADER_CANONICAL_CASE`
abbrev pub header_canonical_case : Dict Text Text
header_canonical_case =
    (codes "call-id", codes "Call-ID")
    ∷ (codes "cseq", codes "CSeq")
    ∷ (codes "www-authenticate", codes "WWW-Authenticate")
    ∷ (codes "mime-version", codes "MIME-Version")
    ∷ (codes "p-asserted-identity", codes "P-Asserted-Identity")
    ∷ (codes "p-preferred-identity", codes "P-Preferred-Identity")
    ∷ []

-- `"-".join(part.capitalize() for part in low.split("-"))` of a text in lower case; the flag says
-- that a part begins.
abbrev pub capitalize_parts : Bool → Text → Text
capitalize_parts begins [] = []
capitalize_parts begins (c ∷ t) =
    (if begins then upper_code c else c) ∷ capitalize_parts (c == b'-') t

-- `_canonical_header_name`
unfoldable pub canonical_header_name : Text → Text
unfolding get strip
canonical_header_name name =
    let low = lower (strip name) in
    elim (get header_canonical_case low) [ some canon ↦ canon | none ↦ capitalize_parts true low ]

-- What stands under a name: a text, or the list of several in the order of their arrival.
pub data HeaderValue : Type 0 where
  single : Text → HeaderValue
  several : List Text → HeaderValue

abbrev pub add_value : Option HeaderValue → Text → HeaderValue
add_value none v = single v
add_value (some (single w)) v = several (w ∷ v ∷ [])
add_value (some (several ws)) v = several (ws ++ v ∷ [])

-- A line of the loop.
unfoldable pub add_line : Text → Dict Text HeaderValue → Dict Text HeaderValue
unfolding canonical_header_name rstrip strip partition get set
add_line raw headers =
    let (name, value) = partition b':' (rstrip raw) in
    elim value [
      | none ↦ headers
      | some v ↦
          let canon = canonical_header_name name in
          set headers canon (add_value (get headers canon) (strip v))
    ]

abbrev pub add_lines : List Text → Dict Text HeaderValue → Dict Text HeaderValue
add_lines [] headers = headers
add_lines (line ∷ lines) headers = add_lines lines (add_line line headers)

-- `text.replace("\r\n", "\n")`
unfoldable pub replace_crlf : Text → Text
replace_crlf [] = []
replace_crlf (c ∷ []) = c ∷ []
replace_crlf (c ∷ d ∷ t) =
    let rest = replace_crlf (d ∷ t) in if c == b'\r' && d == b'\n' then rest else c ∷ rest

-- The lines before the first empty one.
abbrev before_blank : List Text → List Text
before_blank [] = []
before_blank ([] ∷ lines) = []
before_blank ((c ∷ t) ∷ lines) = (c ∷ t) ∷ before_blank lines

-- `t.endswith(w)`
abbrev ends_with : Text → Text → Bool
ends_with [] w = w == []
ends_with (c ∷ t) w = c ∷ t == w || ends_with t w

abbrev is_start_line : Text → Bool
is_start_line line =
    let first = strip line in starts_with first (codes "SIP/") || ends_with first (codes "SIP/2.0")

abbrev skip_start_line : List Text → List Text
skip_start_line [] = []
skip_start_line (line ∷ lines) = if is_start_line line then lines else line ∷ lines

-- The lines that the loop goes through.
unfoldable pub header_lines : Text → List Text
unfolding replace_crlf split_lf strip
header_lines text = skip_start_line (before_blank (split_lf (replace_crlf text)))

-- `parse_sip_headers`; a missing text is an empty one.
unfoldable pub parse_sip_headers : Text → Dict Text HeaderValue
unfolding header_lines add_line
parse_sip_headers text = if text == [] then [] else add_lines (header_lines text) []
