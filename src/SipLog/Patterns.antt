-- ===== src/SipLog/Patterns.antt =====
-- The regular expressions of src/sip_logger.py.
use pjsua_mcp.Prelude.{ℕ, Bool, not, ◌&&◌, ◌||◌, ◌++◌, leb, nat_eq, ◌==◌}
use pjsua_mcp.Text.{Text, codes}
use pjsua_mcp.Text.Scan.{is_digit, is_word, is_space}
use pjsua_mcp.Text.Regex.{
  Re, one, both, either, many, few, group, line_start, boundary, some_of, literal, literal_ci,
  other_than,
}

infixr 30 ◌then_re◌
abbrev ◌then_re◌ : Re → Re → Re
◌then_re◌ = both

abbrev blanks : Re
blanks = some_of is_space

abbrev digits : Re
digits = some_of is_digit

abbrev is_not_space : ℕ → Bool
is_not_space c = not (is_space c)

abbrev is_not_eol : ℕ → Bool
is_not_eol c = not (c == b'\r') && not (c == b'\n')

abbrev is_upper : ℕ → Bool
is_upper c = leb b'A' c && leb c b'Z' || c == b'_'

-- `\b(TX|RX)\s+\d+\s+bytes\s+`
abbrev re_txrx : Re
re_txrx =
    boundary
    then_re group (either (literal (codes "TX")) (literal (codes "RX")))
    then_re blanks
    then_re digits
    then_re blanks
    then_re literal (codes "bytes")
    then_re blanks

-- `(\w+)/cseq=(\d+)`
abbrev re_method_cseq : Re
re_method_cseq = group (some_of is_word) then_re literal (codes "/cseq=") then_re group digits

abbrev re_status : Re
re_status = group (one is_digit then_re one is_digit then_re one is_digit)

-- `_RE_TXRX_REQUEST`, `_RE_TXRX_RESPONSE`
abbrev pub re_txrx_request : Re
re_txrx_request =
    re_txrx
    then_re literal (codes "Request")
    then_re blanks
    then_re literal (codes "msg")
    then_re blanks
    then_re re_method_cseq

abbrev pub re_txrx_response : Re
re_txrx_response =
    re_txrx
    then_re literal (codes "Response")
    then_re blanks
    then_re literal (codes "msg")
    then_re blanks
    then_re re_status
    then_re literal (codes "/")
    then_re re_method_cseq

-- `_RE_STATUS_LINE`
abbrev pub re_status_line : Re
re_status_line =
    line_start
    then_re literal (codes "SIP/2.0")
    then_re blanks
    then_re re_status
    then_re one is_space

-- `^<name>:\s*`
abbrev header : Text → Re
header name = line_start then_re literal_ci (name ++ codes ":") then_re many is_space

-- `_RE_CALL_ID`, `_RE_CSEQ_HEADER`, `_RE_FROM`, `_RE_TO`, `_RE_VIA`
abbrev pub re_call_id : Re
re_call_id = header (codes "Call-ID") then_re group (some_of is_not_space)

abbrev pub re_cseq_header : Re
re_cseq_header =
    header (codes "CSeq") then_re group digits then_re blanks then_re group (some_of is_word)

abbrev pub re_from : Re
re_from = header (codes "From") then_re group (some_of is_not_eol)

abbrev pub re_to : Re
re_to = header (codes "To") then_re group (some_of is_not_eol)

abbrev pub re_via : Re
re_via =
    header (codes "Via")
    then_re few (other_than b'\n')
    then_re blanks
    then_re some_of is_not_space
    then_re literal (codes ":")
    then_re group digits

-- `_RE_ANGLE_URI`, `_RE_DUMP`
abbrev pub re_angle_uri : Re
re_angle_uri =
    literal (codes "<") then_re group (some_of (other_than b'>')) then_re literal (codes ">")

abbrev pub re_dump : Re
re_dump =
    literal (codes "[")
    then_re some_of is_upper
    then_re literal (codes "]")
    then_re blanks
    then_re literal (codes "To:")
    then_re many is_space
    then_re re_angle_uri
