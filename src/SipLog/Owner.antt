-- ===== src/SipLog/Owner.antt =====
-- `_resolve_owner` and `filter_entries_by_owner` of src/sip_logger.py: whose a message of the log is.
use pjsua_mcp.Prelude.{
  ℕ, suc, Bool, true, false, not, ◌&&◌, ◌||◌, Option, none, some, List, [], ◌∷◌, ◌++◌, nat_eq, Eq,
  ◌==◌, any, contains, is_some, if◌then◌else◌,
}
use pjsua_mcp.Text.{Text, text_eq, codes, upper}
use pjsua_mcp.Text.Scan.{has_text}
use pjsua_mcp.Text.Regex.{try_next}
use pjsua_mcp.Dict.{Dict, get}
use pjsua_mcp.SipLog.{LogEntry}
use pjsua_mcp.SipLog.Metadata.{PhoneMeta, SipMetadata, normalize_sip_uri, parse_sip_metadata}

-- `if xs:`
abbrev pub nonempty : Option Text → Option Text
nonempty none = none
nonempty (some []) = none
nonempty (some (c ∷ t)) = some (c ∷ t)

-- The first phone that passes.
abbrev pub first_phone : (PhoneMeta → Bool) → Dict Text PhoneMeta → Option Text
first_phone p [] = none
first_phone p ((id, meta) ∷ phones) = if p meta then some id else first_phone p phones

-- `sip:<username>@`
abbrev pub sip_user : Text → Text
sip_user username = codes "sip:" ++ (username ++ codes "@")

abbrev pub has_call_id : Text → PhoneMeta → Bool
has_call_id id meta = contains id meta.sip_call_ids

abbrev pub has_remote : Text → PhoneMeta → Bool
has_remote uri meta = any (λ u. normalize_sip_uri u == uri) meta.remote_uris

abbrev pub has_port : List ℕ → PhoneMeta → Bool
has_port ports meta = elim meta.local_port [
  | none ↦ false
  | some p ↦ not (p == 0) && contains p ports
]

abbrev pub has_user : Text → PhoneMeta → Bool
has_user uri meta = elim (nonempty meta.username) [
  | none ↦ false
  | some u ↦ has_text (sip_user u) uri
]

abbrev pub owner_by_call_id : SipMetadata → Dict Text PhoneMeta → Option Text
owner_by_call_id md phones = elim (nonempty md.sip_call_id) [
  | none ↦ none
  | some id ↦ first_phone (has_call_id id) phones
]

abbrev pub owner_by_dump : SipMetadata → Dict Text PhoneMeta → Option Text
owner_by_dump md phones = elim (nonempty md.dump_remote_uri) [
  | none ↦ none
  | some uri ↦ first_phone (has_remote (normalize_sip_uri uri)) phones
]

abbrev pub owner_by_port : SipMetadata → Dict Text PhoneMeta → Option Text
owner_by_port md phones = first_phone (has_port md.via_ports) phones

abbrev is_register : Option Text → Bool
is_register none = false
is_register (some m) = m == codes "REGISTER"

abbrev pub owner_by_register : SipMetadata → Dict Text PhoneMeta → Option Text
owner_by_register md phones = elim (nonempty md.from_uri) [
  | none ↦ none
  | some uri ↦ if is_register md.method then first_phone (has_user uri) phones else none
]

-- `_resolve_owner`
unfoldable pub resolve_owner : SipMetadata → Dict Text PhoneMeta → Option Text
unfolding normalize_sip_uri has_text
resolve_owner md phones = try_next (owner_by_call_id md phones) (
    try_next (owner_by_dump md phones)
      (try_next (owner_by_port md phones) (owner_by_register md phones)))

-- The filters of `filter_entries_by_owner`.
pub record Filters : Type 0 where
  pub target_phone : Option Text
  pub target_sip_call_id : Option Text
  pub method : Option Text
  pub direction : Option Text
  pub status_code : Option ℕ
  pub cseq : Option ℕ

abbrev pub no_filters : Filters → Bool
no_filters f = not (
    is_some f.target_phone
    || is_some f.target_sip_call_id
    || is_some f.method
    || is_some f.direction
    || is_some f.status_code
    || is_some f.cseq)

-- `wanted is None or found == wanted`
abbrev pub agrees {ℓ} : {A : Type ℓ} ⦃e : Eq A⦄ → Option A → Option A → Bool
agrees none found = true
agrees (some w) none = false
agrees (some w) (some f) = f == w

-- `t.upper() if t else None`
abbrev pub norm : Option Text → Option Text
norm t = elim (nonempty t) [ none ↦ none | some w ↦ some (upper w) ]

-- The filters other than the phone's.
unfoldable pub passes : Filters → SipMetadata → Bool
passes f md =
    agrees (norm f.method) md.method
    && agrees (norm f.direction) md.direction
    && agrees f.status_code md.status_code
    && agrees f.cseq md.cseq
    && agrees f.target_sip_call_id md.sip_call_id

-- `target_substring`
unfoldable pub target_substring : Dict Text PhoneMeta → Option Text → Option Text
unfolding get
target_substring phones target = elim (nonempty target) [
  | none ↦ none
  | some p ↦ elim (get phones p) [
    | none ↦ none
    | some meta ↦ elim (nonempty meta.username) [ none ↦ none | some u ↦ some (sip_user u) ]
  ]
]

-- What becomes of an entry: it is kept, or kept because it names the phone's user, or dropped.
pub data Verdict : Type 0 where
  kept kept_by_name dropped : Verdict

abbrev pub mentions : Option Text → Text → Bool
mentions none msg = false
mentions (some s) msg = has_text s msg

-- The end of the loop's body.
abbrev pub by_owner : Dict Text PhoneMeta → Text → Text → SipMetadata → Verdict
by_owner phones target msg md = elim (resolve_owner md phones) [
  | some owner ↦ if owner == target then kept else dropped
  | none ↦ if mentions (target_substring phones (some target)) msg then kept_by_name else dropped
]

-- The loop's body.
unfoldable pub judge : Filters → Dict Text PhoneMeta → LogEntry → Verdict
unfolding parse_sip_metadata resolve_owner has_text passes target_substring
judge f phones entry =
    let md = parse_sip_metadata entry.msg in
    if not (passes f md)
    then dropped
    else elim f.target_phone [ none ↦ kept | some target ↦ by_owner phones target entry.msg md ]

abbrev pub add_entry : LogEntry → Verdict → List LogEntry × ℕ → List LogEntry × ℕ
add_entry entry kept (es, n) = (entry ∷ es, n)
add_entry entry kept_by_name (es, n) = (entry ∷ es, suc n)
add_entry entry dropped (es, n) = (es, n)

-- The loop: the entries that are kept, and `fallback_count`.
unfoldable pub filter_loop : Filters → Dict Text PhoneMeta → List LogEntry → List LogEntry × ℕ
unfolding judge
filter_loop f phones [] = ([], 0)
filter_loop f phones (entry ∷ entries) =
    add_entry entry (judge f phones entry) (filter_loop f phones entries)

-- `filter_entries_by_owner`
unfoldable pub filter_entries_by_owner :
    List LogEntry → Dict Text PhoneMeta → Filters → List LogEntry × ℕ
unfolding filter_loop
filter_entries_by_owner entries phones f =
    if no_filters f then (entries, 0) else filter_loop f phones entries
