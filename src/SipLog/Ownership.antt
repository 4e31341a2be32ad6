-- ===== src/SipLog/Ownership.antt =====
-- Whose messages `filter_entries_by_owner` of src/sip_logger.py shows.
use pjsua_mcp.Prelude.{
  ◌≡◌, refl, ◌∙◌, ap, Bool, true, false, not, ◌&&◌, none, some, List, [], ◌∷◌, ◌++◌, arith, nat_eq,
  ◌==◌, any, keep, length, is_some, Option-cases, Bool-cases, inl, inr, if◌then◌else◌,
}
use pjsua_mcp.Text.{Text, text_eq}
use pjsua_mcp.Dict.{Dict}
use pjsua_mcp.SipLog.{LogEntry}
use pjsua_mcp.SipLog.Metadata.{PhoneMeta, SipMetadata, parse_sip_metadata}
use pjsua_mcp.SipLog.Owner.{
  nonempty, first_phone, has_call_id, resolve_owner, Filters, agrees, passes, target_substring,
  kept, kept_by_name, dropped, mentions, judge, add_entry, filter_loop, filter_entries_by_owner,
}

first_phone-append :
    (p : PhoneMeta → Bool) (before after : Dict Text PhoneMeta) (q : Text) (meta : PhoneMeta)
    → first_phone p before ≡ none
    → p meta ≡ true
    → first_phone p (before ++ (q, meta) ∷ after) ≡ some q
first_phone-append p [] after q meta h k = ground arith
first_phone-append p ((i, m) ∷ before) after q meta h k =
    ground (arith, first_phone-append p before after q meta)

-- The Call-ID decides, whatever else a message says.
pub resolve_owner-call_id :
    (md : SipMetadata) (before after : Dict Text PhoneMeta) (q : Text) (meta : PhoneMeta)
    (id : Text)
    → nonempty md.sip_call_id ≡ some id
    → first_phone (has_call_id id) before ≡ none
    → has_call_id id meta ≡ true
    → resolve_owner md (before ++ (q, meta) ∷ after) ≡ some q
unfolding resolve_owner
resolve_owner-call_id md before after q meta id e h k =
    ground (arith, first_phone-append (has_call_id id) before after q meta h k)

-- The owner is known and is the phone, or is unknown and the message names the phone's user.
abbrev pub is_mine : Text → LogEntry → Dict Text PhoneMeta → Bool
is_mine target e phones = elim (resolve_owner (parse_sip_metadata e.msg) phones) [
  | some owner ↦ owner == target
  | none ↦ mentions (target_substring phones (some target)) e.msg
]

abbrev pub is_let_in : Filters → Text → Dict Text PhoneMeta → LogEntry → Bool
is_let_in f target phones e = passes f (parse_sip_metadata e.msg) && is_mine target e phones

abbrev pub is_nameless : Dict Text PhoneMeta → LogEntry → Bool
is_nameless phones e = not (is_some (resolve_owner (parse_sip_metadata e.msg) phones))

judge_lem :
    (f : Filters) (phones : Dict Text PhoneMeta) (target : Text) (e : LogEntry)
    → f.target_phone ≡ some target
    → judge f phones e ≡ (
        if is_let_in f target phones e
        then if is_nameless phones e then kept_by_name else kept
        else dropped)
unfolding judge
judge_lem f phones target e h =
    elim (Option-cases (resolve_owner (parse_sip_metadata e.msg) phones)) [
      | inl o ↦ ground arith
      | inr (owner, o) ↦ ground arith
    ]

add_entry_lem :
    (e : LogEntry) (es : List LogEntry) (p q : LogEntry → Bool)
    → add_entry e
        (if p e then if q e then kept_by_name else kept else dropped)
        (es, length (keep q es))
      ≡ (let shown = if p e then e ∷ es else es in (shown, length (keep q shown)))
add_entry_lem e es p q = ground arith

filter_loop_lem :
    (f : Filters) (phones : Dict Text PhoneMeta) (target : Text) (entries : List LogEntry)
    → f.target_phone ≡ some target
    → filter_loop f phones entries ≡ (
        let es = keep (is_let_in f target phones) entries in
        (es, length (keep (is_nameless phones) es)))
unfolding filter_loop
filter_loop_lem f phones target [] h = refl
filter_loop_lem f phones target (e ∷ entries) h =
    rw (filter_loop_lem f phones target entries h, judge_lem f phones target e h)
      (add_entry_lem e (keep (is_let_in f target phones) entries) (is_let_in f target phones)
        (is_nameless phones))

-- With a phone to show, exactly those entries come back, in their order, that pass the other filters
-- and are the phone's, or belong to no phone and name its user; the number that comes with them is
-- that of the latter.
pub filter_entries_by_owner-keep :
    (entries : List LogEntry) (phones : Dict Text PhoneMeta) (f : Filters) (target : Text)
    → f.target_phone ≡ some target
    → let (es, n) = filter_entries_by_owner entries phones f in
      (es ≡ keep (is_let_in f target phones) entries) × (n ≡ length (keep (is_nameless phones) es))
unfolding filter_entries_by_owner
filter_entries_by_owner-keep entries phones f target h =
    ground (arith, filter_loop_lem f phones target entries h)

-- The message is of the dialog with this Call-ID.
abbrev pub is_of_dialog : Text → LogEntry → Bool
is_of_dialog id e = agrees (some id) (nonempty (parse_sip_metadata e.msg).sip_call_id)

any-keep :
    (p q : LogEntry → Bool) (es : List LogEntry)
    → ((e : LogEntry) → p e && q e ≡ false)
    → any p (keep q es) ≡ false
any-keep p q [] h = refl
any-keep p q (e ∷ es) h = ground (arith, h e, any-keep p q es h)

is_mine-other :
    (p q : Text) (e : LogEntry) (phones : Dict Text PhoneMeta)
    → resolve_owner (parse_sip_metadata e.msg) phones ≡ some q
    → (q == p) ≡ false
    → is_mine p e phones ≡ false
is_mine-other p q e phones o d = ground arith

not_let_in :
    (f : Filters) (p q id : Text) (meta : PhoneMeta) (before after : Dict Text PhoneMeta)
    (e : LogEntry)
    → first_phone (has_call_id id) before ≡ none
    → has_call_id id meta ≡ true
    → (q == p) ≡ false
    → is_of_dialog id e && is_let_in f p (before ++ (q, meta) ∷ after) e ≡ false
not_let_in f p q id meta before after e h k d =
    let md = parse_sip_metadata e.msg in
    elim (Option-cases (nonempty md.sip_call_id)) [
      | inl o ↦ rw o
      | inr (found, o) ↦ elim (Bool-cases (found == id)) [
        | inr n ↦ rw (o, n)
        | inl y ↦
            let same : nonempty md.sip_call_id ≡ some id =
              o ∙ ap some ((text_eq.beq_iff found id).0 y) in
            let owner = resolve_owner-call_id md before after q meta id same h k in
            let other : is_mine p e (before ++ (q, meta) ∷ after) ≡ false =
              is_mine-other p q e (before ++ (q, meta) ∷ after) owner d in
            ground arith
      ]
    ]

-- Where a Call-ID is one of a phone's, and of no phone that was added before it, the log as it is
-- filtered for any other phone, with any further filters, has no message of that dialog.
pub filter_entries_by_owner-isolated :
    (entries : List LogEntry) (f : Filters) (p q id : Text) (meta : PhoneMeta)
    (before after : Dict Text PhoneMeta)
    → f.target_phone ≡ some p
    → first_phone (has_call_id id) before ≡ none
    → has_call_id id meta ≡ true
    → (q == p) ≡ false
    → any (is_of_dialog id) (filter_entries_by_owner entries (before ++ (q, meta) ∷ after) f).0
      ≡ false
filter_entries_by_owner-isolated entries f p q id meta before after t h k d =
    let phones = before ++ (q, meta) ∷ after in
    rw ((filter_entries_by_owner-keep entries phones f p t).0) (
      any-keep (is_of_dialog id) (is_let_in f p phones) entries
        (λ e. not_let_in f p q id meta before after e h k d))
