-- ===== src/SipLog/Metadata.antt =====
-- `parse_sip_metadata` and `normalize_sip_uri` of src/sip_logger.py.
use pjsua_mcp.Prelude.{
  ℕ, Bool, true, false, ◌&&◌, ◌||◌, Option, none, some, List, [], ◌∷◌, nat_eq, ◌==◌, if◌then◌else◌,
}
use pjsua_mcp.Text.{Text, text_eq, upper}
use pjsua_mcp.Text.Scan.{strip, partition, number}
use pjsua_mcp.Text.Regex.{search, find_iter, run, search_from, find_from}
use pjsua_mcp.SipLog.Patterns.{
  re_txrx_request, re_txrx_response, re_status_line, re_call_id, re_cseq_header, re_from, re_to,
  re_via, re_angle_uri, re_dump,
}

-- `PhoneMeta`; its two sets are lists.
pub record PhoneMeta : Type 0 where
  pub phone_id : Text
  pub username : Option Text
  pub local_port : Option ℕ
  pub sip_call_ids : List Text
  pub remote_uris : List Text

-- `SipMetadata`
pub record SipMetadata : Type 0 where
  pub direction : Option Text
  pub method : Option Text
  pub cseq : Option ℕ
  pub status_code : Option ℕ
  pub sip_call_id : Option Text
  pub from_uri : Option Text
  pub to_uri : Option Text
  pub via_ports : List ℕ
  pub dump_remote_uri : Option Text

abbrev pub no_metadata : SipMetadata
no_metadata = record {
  direction = none;
  method = none;
  cseq = none;
  status_code = none;
  sip_call_id = none;
  from_uri = none;
  to_uri = none;
  via_ports = [];
  dump_remote_uri = none;
}

-- `m.group(1)`
abbrev pub group_1 : Option (List Text) → Option Text
group_1 none = none
group_1 (some []) = none
group_1 (some (g ∷ gs)) = some g

-- `normalize_sip_uri`
unfoldable pub normalize_sip_uri : Text → Text
unfolding run search_from strip partition
normalize_sip_uri raw = if raw == [] then [] else elim (group_1 (search re_angle_uri raw)) [
  | none ↦ strip (partition b';' raw).0
  | some bare ↦ strip (partition b';' bare).0
]

-- `text or None`
abbrev or_none : Text → Option Text
or_none [] = none
or_none (c ∷ t) = some (c ∷ t)

abbrev of_request : Option (List Text) → SipMetadata
of_request (some (d ∷ m ∷ n ∷ gs)) = record no_metadata {
  direction = some d;
  method = some (upper m);
  cseq = some (number n);
}
of_request _ = no_metadata

-- The first line: a response's, or else a request's.
abbrev of_envelope : Option (List Text) → Text → SipMetadata
of_envelope (some (d ∷ s ∷ m ∷ n ∷ gs)) msg = record no_metadata {
  direction = some d;
  status_code = some (number s);
  method = some (upper m);
  cseq = some (number n);
}
of_envelope _ msg = of_request (search re_txrx_request msg)

abbrev with_status_line : Text → SipMetadata → SipMetadata
with_status_line msg md = elim md.status_code [
  | some s ↦ md
  | none ↦ elim (group_1 (search re_status_line msg)) [
    | none ↦ md
    | some s ↦ record md { status_code = some (number s) }
  ]
]

abbrev pub or_this {ℓ} : {A : Type ℓ} → Option A → A → Option A
or_this none b = some b
or_this (some a) b = some a

abbrev is_missing {ℓ} : {A : Type ℓ} → Option A → Bool
is_missing none = true
is_missing (some a) = false

abbrev of_cseq : Option (List Text) → SipMetadata → SipMetadata
of_cseq (some (n ∷ m ∷ gs)) md = record md {
  cseq = or_this md.cseq (number n);
  method = or_this md.method (upper m);
}
of_cseq _ md = md

abbrev with_cseq : Text → SipMetadata → SipMetadata
with_cseq msg md =
    if is_missing md.method || is_missing md.cseq
    then of_cseq (search re_cseq_header msg) md
    else md

abbrev uri_of : Option Text → Option Text
uri_of none = none
uri_of (some raw) = or_none (normalize_sip_uri raw)

abbrev ports : List (List Text) → List ℕ
ports [] = []
ports ([] ∷ ms) = ports ms
ports ((p ∷ gs) ∷ ms) = number p ∷ ports ms

abbrev with_dump : Text → SipMetadata → SipMetadata
with_dump msg md =
    if is_missing md.sip_call_id && is_missing md.method
    then record md { dump_remote_uri = group_1 (search re_dump msg) }
    else md

abbrev with_headers : Text → SipMetadata → SipMetadata
with_headers msg md = record md {
  from_uri = uri_of (group_1 (search re_from msg));
  to_uri = uri_of (group_1 (search re_to msg));
  via_ports = ports (find_iter re_via msg);
}

-- `parse_sip_metadata`
unfoldable pub parse_sip_metadata : Text → SipMetadata
unfolding run search_from find_from normalize_sip_uri
parse_sip_metadata msg =
    if msg == []
    then no_metadata
    else let md = with_status_line msg (of_envelope (search re_txrx_response msg) msg) in
      let md' = with_cseq msg (record md { sip_call_id = group_1 (search re_call_id msg) }) in
      with_dump msg (with_headers msg md')
