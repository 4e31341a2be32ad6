-- ===== src/SipLog/Messages.antt =====
-- `structurize_message` of src/sip_logger.py: a log entry as a structured message.
use pjsua_mcp.Prelude.{
  ℕ, Bool, false, not, ◌&&◌, ◌||◌, Option, none, some, [], ◌∷◌, nat_eq, ◌==◌, is_some, or_else,
  if◌then◌else◌,
}
use pjsua_mcp.Text.{Text, text_eq, codes, lower, starts_with}
use pjsua_mcp.Text.Scan.{is_digit, has_text, partition}
use pjsua_mcp.Text.Regex.{Re, one, both, group, literal, match_at, groups_of, run}
use pjsua_mcp.Dict.{Dict, get}
use pjsua_mcp.SipLog.Metadata.{SipMetadata, parse_sip_metadata, group_1}
use pjsua_mcp.SipLog.Headers.{HeaderValue, single, replace_crlf, parse_sip_headers}
use pjsua_mcp.SipLog.SdpBody.{SdpBody, parse_sdp_body}

-- The dictionary that comes back; its key `status_code` may be missing.
pub record Message : Type 0 where
  pub ts : Option Text
  pub direction : Option Text
  pub method : Option Text
  pub cseq : Option ℕ
  pub call_id : Option Text
  pub from_uri : Option Text
  pub to_uri : Option Text
  pub headers : Dict Text HeaderValue
  pub sdp : Option SdpBody
  pub status_code : Option ℕ

abbrev digit : Re
digit = one is_digit

abbrev two_digits : Re
two_digits = both digit digit

-- `_RE_TIMESTAMP`, which is tried at the start of the text only
abbrev re_timestamp : Re
re_timestamp = group (
    both two_digits (
      both (literal (codes ":")) (
        both two_digits (
          both (literal (codes ":"))
            (both two_digits (both (literal (codes ".")) (both digit two_digits)))))))

abbrev timestamp_of : Text → Option Text
timestamp_of msg = group_1 (groups_of (match_at re_timestamp (record { prev = none; rest = msg })))

-- What stands before the last `w`, if there is one.
unfoldable pub before_last : Text → Text → Option Text
before_last w [] = none
before_last w (c ∷ t) = elim (before_last w t) [
  | some r ↦ some (c ∷ r)
  | none ↦ if starts_with (c ∷ t) w then some [] else none
]

-- `t.rsplit("\n--end msg--", 1)[0]`
abbrev without_trailer : Text → Text
without_trailer t = or_else (before_last (codes "\n--end msg--") t) t

-- `t.partition("\n\n")`: the headers and the body
unfoldable pub split_body : Text → Text × Text
split_body [] = ([], [])
split_body (c ∷ []) = (c ∷ [], [])
split_body (c ∷ d ∷ t) =
    let (headers, body) = split_body (d ∷ t) in
    if c == b'\n' && d == b'\n' then ([], t) else (c ∷ headers, body)

-- `isinstance(ct, str) and "application/sdp" in ct.lower()`
abbrev is_sdp : Option HeaderValue → Bool
is_sdp (some (single ct)) = has_text (codes "application/sdp") (lower ct)
is_sdp _ = false

-- The message has an envelope.
abbrev has_envelope : SipMetadata → Bool
has_envelope md = is_some md.direction && (is_some md.method || is_some md.status_code)

abbrev message_of : Text → SipMetadata → Text × Text → Message
message_of msg md (headers_part, body_part) =
    let headers = parse_sip_headers headers_part in
    record {
      ts = timestamp_of msg;
      direction = md.direction;
      method = md.method;
      cseq = md.cseq;
      call_id = md.sip_call_id;
      from_uri = md.from_uri;
      to_uri = md.to_uri;
      headers = headers;
      sdp = if is_sdp (get headers (codes "Content-Type")) then parse_sdp_body body_part else none;
      status_code = md.status_code;
    }

-- `structurize_message`
unfoldable pub structurize_message : Text → Option Message
unfolding parse_sip_metadata partition before_last replace_crlf split_body parse_sip_headers
    parse_sdp_body run get has_text
structurize_message msg =
    let md = parse_sip_metadata msg in
    let sip_text = without_trailer (or_else (partition b'\n' msg).1 []) in
    if not (msg == []) && has_envelope md
    then some (message_of msg md (split_body (replace_crlf sip_text)))
    else none
