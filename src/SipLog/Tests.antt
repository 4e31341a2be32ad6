-- ===== src/SipLog/Tests.antt =====
-- The log of src/sip_logger.py at concrete messages.
use pjsua_mcp.Prelude.{
  ◌≡◌, ◌≤◌, refl, false, none, some, List, [], ◌∷◌, ◌++◌, map, any, All, keep, length, last_n,
}
use pjsua_mcp.Text.{Text, text_eq, codes}
use pjsua_mcp.Text.Scan.{strip, lstrip, rstrip, span, partition, has_text, words, cut_words}
use pjsua_mcp.Text.Regex.{run, greedy, lazily, search_from, find_from}
use pjsua_mcp.Text.Lines.{split_lf}
use pjsua_mcp.Dict.{Dict, get, set}
use pjsua_mcp.Text.Integer.{pos, int_of_text}
use pjsua_mcp.SipLog.{LogEntry, new_writer, stripped, clear, with_text, get_entries}
use pjsua_mcp.SipLog.Metadata.{PhoneMeta, SipMetadata, normalize_sip_uri, parse_sip_metadata}
use pjsua_mcp.SipLog.Owner.{Filters, filter_entries_by_owner}
use pjsua_mcp.SipLog.Ownership.{is_of_dialog, filter_entries_by_owner-isolated}
use pjsua_mcp.SipLog.Shown.{is_shown, is_unowned, filter_entries_by_owner_lem}
use pjsua_mcp.SipLog.Headers.{
  single, several, canonical_header_name, add_line, header_lines, replace_crlf, parse_sip_headers,
}
use pjsua_mcp.SipLog.Codecs.{Media, new_media, static_pt_name, change_codec, apply_rtpmap}
use pjsua_mcp.SipLog.SdpBody.{apply_attribute, add_sdp_line, parse_sdp_body}
use pjsua_mcp.SipLog.PayloadTypes.{IsAligned, sections, parse_sdp_body-IsAligned}
use pjsua_mcp.SipLog.Messages.{before_last, split_body, structurize_message}
use pjsua_mcp.SipLog.HeaderNames.{values_of, collapse, parse_sip_headers_lem}
use pjsua_mcp.SipLog.Window.{write_all, get_entries_lem}

-- A request that phone b got.
abbrev request : Text
request =
    codes "12:00:00.000 sip RX 512 bytes Request msg INVITE/cseq=7 from UDP:\n"
    ++ codes "INVITE sip:b@h SIP/2.0\nVia: SIP/2.0/UDP 10.0.0.1:5070;branch=z\n"
    ++ codes "From: \"A\" <sip:a@h>;tag=1\nCall-ID: c1\n"

abbrev request_metadata : SipMetadata
request_metadata = record {
  direction = some (codes "RX");
  method = some (codes "INVITE");
  cseq = some 7;
  status_code = none;
  sip_call_id = some (codes "c1");
  from_uri = some (codes "sip:a@h");
  to_uri = none;
  via_ports = 5070 ∷ [];
  dump_remote_uri = none;
}

parsed : parse_sip_metadata request ≡ request_metadata
unfolding parse_sip_metadata normalize_sip_uri run greedy lazily search_from find_from strip lstrip
    rstrip span partition
parsed = refl

abbrev entry : LogEntry
entry = record { level = 4; msg = request; thread_name = codes "main" }

abbrev phone : Text → List Text → PhoneMeta
phone id ids = record {
  phone_id = id;
  username = some id;
  local_port = some 5070;
  sip_call_ids = ids;
  remote_uris = [];
}

-- Phone a was added first and has the port of the message's Via line.
abbrev phones : Dict Text PhoneMeta
phones = (codes "a", phone (codes "a") []) ∷ (codes "b", phone (codes "b") (codes "c1" ∷ [])) ∷ []

abbrev of_phone : Text → Filters
of_phone id = record {
  target_phone = some id;
  target_sip_call_id = none;
  method = some (codes "invite");
  direction = none;
  status_code = none;
  cseq = none;
}

filter_entries_by_owner_lem_example :
    let (es, n) = filter_entries_by_owner (entry ∷ []) phones (of_phone (codes "b")) in
    (es ≡ keep (is_shown (of_phone (codes "b")) (codes "b") phones) (entry ∷ []))
    × (n ≡ length (keep (is_unowned phones) es))
filter_entries_by_owner_lem_example =
    filter_entries_by_owner_lem (entry ∷ []) phones (of_phone (codes "b")) (codes "b") refl

filter_entries_by_owner-isolated_example :
    any
      (is_of_dialog (codes "c1"))
      (filter_entries_by_owner (entry ∷ []) phones (of_phone (codes "a"))).0
    ≡ false
filter_entries_by_owner-isolated_example =
    filter_entries_by_owner-isolated (entry ∷ []) (of_phone (codes "a")) (codes "a") (codes "b")
      (codes "c1") (phone (codes "b") (codes "c1" ∷ [])) ((codes "a", phone (codes "a") []) ∷ []) []
      refl refl refl refl

get_entries_lem_example :
    let w' = write_all (entry ∷ entry ∷ []) (clear (new_writer 1)) in
    let found = with_text (some (codes "INVITE")) (last_n 1 (map stripped (entry ∷ entry ∷ []))) in
    (length w'.entries ≤ 1)
    × (get_entries none (some (codes "INVITE")) w' ≡ found)
    × (get_entries (some (pos 1)) (some (codes "INVITE")) w' ≡ last_n 1 found)
    × (get_entries (some (pos 0)) (some (codes "INVITE")) w' ≡ found)
get_entries_lem_example =
    get_entries_lem 0 (some (codes "INVITE")) (entry ∷ entry ∷ []) (new_writer 1)

-- A header that comes twice, under two spellings of its name.
abbrev message : Text
message = codes "INVITE sip:b@h SIP/2.0\r\nVia: one\r\ncall-id: c1\r\nVIA : two\r\n\r\nv=0\r\n"

parsed_headers :
    parse_sip_headers message
    ≡ (codes "Via", several (codes "one" ∷ codes "two" ∷ []))
      ∷ (codes "Call-ID", single (codes "c1"))
      ∷ []
unfolding parse_sip_headers canonical_header_name add_line header_lines replace_crlf split_lf strip
    lstrip rstrip span partition get set
parsed_headers = refl

parse_sip_headers_lem_example :
    get (parse_sip_headers message) (canonical_header_name (codes "via"))
    ≡ collapse (values_of (codes "via") (header_lines message))
parse_sip_headers_lem_example = parse_sip_headers_lem message (codes "via")

-- A body with a static payload type, a dynamic one and DTMF.
abbrev body : Text
body = codes "v=0\r\nm=audio 4000 RTP/AVP 0 98\r\na=rtpmap:98 opus/48000/2\r\na=sendonly\r\n"

abbrev body_section : Media
body_section = record {
  kind = codes "audio";
  port = pos 4000;
  protocol = codes "RTP/AVP";
  payload_types = pos 0 ∷ pos 98 ∷ [];
  codecs =
      record { pt = pos 0; name = codes "PCMU"; clock_rate = pos 8000; fmtp = none }
      ∷ record { pt = pos 98; name = codes "opus"; clock_rate = pos 48000; fmtp = none }
      ∷ [];
  direction = codes "sendonly";
  rtcp_port = none;
}

parsed_body : sections (parse_sdp_body body) ≡ body_section ∷ []
unfolding parse_sdp_body replace_crlf split_lf has_text add_sdp_line rstrip partition
    apply_attribute apply_rtpmap new_media words cut_words int_of_text static_pt_name change_codec
    strip lstrip span get
parsed_body = refl

parse_sdp_body-IsAligned_example : All IsAligned (sections (parse_sdp_body body))
parse_sdp_body-IsAligned_example = parse_sdp_body-IsAligned body

-- The message of an entry.
structured :
    structurize_message request
    ≡ some (record {
      ts = some (codes "12:00:00.000");
      direction = some (codes "RX");
      method = some (codes "INVITE");
      cseq = some 7;
      call_id = some (codes "c1");
      from_uri = some (codes "sip:a@h");
      to_uri = none;
      headers =
          (codes "Via", single (codes "SIP/2.0/UDP 10.0.0.1:5070;branch=z"))
          ∷ (codes "From", single (codes "\"A\" <sip:a@h>;tag=1"))
          ∷ (codes "Call-ID", single (codes "c1"))
          ∷ [];
      sdp = none;
      status_code = none;
    })
unfolding structurize_message parse_sip_metadata normalize_sip_uri run greedy lazily search_from
    find_from strip lstrip rstrip span partition before_last split_body parse_sip_headers
    canonical_header_name add_line header_lines replace_crlf split_lf get set
structured = refl
