-- ===== src/SipLog/Shown.antt =====
-- What `filter_entries_by_owner` of src/sip_logger.py shows, against a description that has none of its
-- parts: every filter on its own, and the phones that a message can be of in one list.
use pjsua_mcp.Prelude.{
  ℕ, ◌≡◌, refl, sym, ap, ◌∙◌, Bool, true, false, not, Option, none, some, List, [], ◌∷◌, ◌++◌,
  arith, nat_eq, Eq, ◌==◌, any, contains, keep, length, is_some, Bool-cases, Option-cases, inl, inr,
  if◌then◌else◌,
}
use pjsua_mcp.Text.{Text, text_eq, codes, upper}
use pjsua_mcp.Text.Scan.{has_text}
use pjsua_mcp.Text.Regex.{try_next}
use pjsua_mcp.Dict.{Dict, get}
use pjsua_mcp.SipLog.{LogEntry}
use pjsua_mcp.SipLog.Metadata.{PhoneMeta, SipMetadata, normalize_sip_uri, parse_sip_metadata}
use pjsua_mcp.SipLog.Owner.{
  nonempty, sip_user, first_phone, has_call_id, has_remote, has_port, has_user, owner_by_call_id,
  owner_by_dump, owner_by_port, owner_by_register, resolve_owner, Filters, agrees, norm, passes,
  target_substring, mentions, filter_entries_by_owner,
}
use pjsua_mcp.SipLog.Ownership.{is_mine, is_let_in, is_nameless, filter_entries_by_owner-keep}

-- The phones that pass a test, in the order of the table.
abbrev phones_with : (PhoneMeta → Bool) → Dict Text PhoneMeta → List Text
phones_with p [] = []
phones_with p ((id, meta) ∷ phones) =
    let rest = phones_with p phones in if p meta then id ∷ rest else rest

abbrev first_of : List Text → Option Text
first_of [] = none
first_of (t ∷ ts) = some t

-- What a phone can have in common with a message: the Call-ID, the remote party of a dump, a port of
-- the Via lines, and, where the message is a REGISTER, the user of the From line.
abbrev same_dialog : Option Text → PhoneMeta → Bool
same_dialog (some (c ∷ id)) meta = contains (c ∷ id) meta.sip_call_ids
same_dialog _ meta = false

abbrev same_remote : Option Text → PhoneMeta → Bool
same_remote (some (c ∷ uri)) meta =
    any (λ u. normalize_sip_uri u == normalize_sip_uri (c ∷ uri)) meta.remote_uris
same_remote _ meta = false

abbrev same_port : List ℕ → Option ℕ → Bool
same_port ports none = false
same_port ports (some p) = if p == 0 then false else contains p ports

abbrev user_in : Option Text → Text → Bool
user_in (some (c ∷ user)) text = has_text (codes "sip:" ++ ((c ∷ user) ++ codes "@")) text
user_in _ text = false

abbrev same_user : Option Text → PhoneMeta → Bool
same_user (some (c ∷ uri)) meta = user_in meta.username (c ∷ uri)
same_user _ meta = false

abbrev registers : Option Text → Bool
registers (some m) = m == codes "REGISTER"
registers none = false

-- The phones a message can be of, the likeliest first.
abbrev candidates : SipMetadata → Dict Text PhoneMeta → List Text
candidates md phones =
    phones_with (same_dialog md.sip_call_id) phones
    ++ (phones_with (same_remote md.dump_remote_uri) phones
        ++ (phones_with (λ meta. same_port md.via_ports meta.local_port) phones
            ++ (if registers md.method then phones_with (same_user md.from_uri) phones else [])))

abbrev user_of : Option PhoneMeta → Option Text
user_of none = none
user_of (some meta) = meta.username

-- The likeliest phone is the target, or there is none and the message names the target's user.
abbrev pub is_owned : Text → LogEntry → Dict Text PhoneMeta → Bool
is_owned target e phones = elim (first_of (candidates (parse_sip_metadata e.msg) phones)) [
  | some owner ↦ owner == target
  | none ↦ if target == [] then false else user_in (user_of (get phones target)) e.msg
]

-- Nothing is asked for, or the message has what is.
abbrev fits {ℓ} : {A : Type ℓ} ⦃e : Eq A⦄ → Option A → Option A → Bool
fits (some w) (some found) = found == w
fits (some w) none = false
fits none found = true

abbrev in_capitals : Option Text → Option Text
in_capitals (some (c ∷ t)) = some (upper (c ∷ t))
in_capitals _ = none

-- The entry has the method and the direction (both in capitals), the status code, the number of the CSeq
-- line and the Call-ID that are asked for, and is the phone's.
abbrev pub is_shown : Filters → Text → Dict Text PhoneMeta → LogEntry → Bool
is_shown f target phones e =
    let md = parse_sip_metadata e.msg in
    if not (fits (in_capitals f.method) md.method)
    then false
    else if not (fits (in_capitals f.direction) md.direction)
    then false
    else if not (fits f.status_code md.status_code)
    then false
    else if not (fits f.cseq md.cseq)
    then false
    else if not (fits f.target_sip_call_id md.sip_call_id)
    then false
    else is_owned target e phones

-- No phone has anything in common with the message.
abbrev pub is_unowned : Dict Text PhoneMeta → LogEntry → Bool
is_unowned phones e = not (is_some (first_of (candidates (parse_sip_metadata e.msg) phones)))

first_of-append : (xs ys : List Text) → first_of (xs ++ ys) ≡ try_next (first_of xs) (first_of ys)
first_of-append [] ys = refl
first_of-append (x ∷ xs) ys = refl

first_of-phones_with :
    (p q : PhoneMeta → Bool) (phones : Dict Text PhoneMeta)
    → ((meta : PhoneMeta) → p meta ≡ q meta)
    → first_of (phones_with p phones) ≡ first_phone q phones
first_of-phones_with p q [] h = refl
first_of-phones_with p q ((id, meta) ∷ phones) h =
    ground (arith, h meta, first_of-phones_with p q phones h)

nobody :
    (p : PhoneMeta → Bool) (phones : Dict Text PhoneMeta)
    → ((meta : PhoneMeta) → p meta ≡ false)
    → first_of (phones_with p phones) ≡ none
nobody p [] h = refl
nobody p ((id, meta) ∷ phones) h = ground (arith, h meta, nobody p phones h)

by_dialog :
    (id : Option Text) (md : SipMetadata) (phones : Dict Text PhoneMeta)
    → first_of (phones_with (same_dialog id) phones)
      ≡ owner_by_call_id (record md { sip_call_id = id }) phones
by_dialog none md phones = nobody (same_dialog none) phones (λ meta. refl)
by_dialog (some []) md phones = nobody (same_dialog (some [])) phones (λ meta. refl)
by_dialog (some (c ∷ id)) md phones =
    first_of-phones_with (same_dialog (some (c ∷ id))) (has_call_id (c ∷ id)) phones (λ meta. refl)

by_remote :
    (uri : Option Text) (md : SipMetadata) (phones : Dict Text PhoneMeta)
    → first_of (phones_with (same_remote uri) phones)
      ≡ owner_by_dump (record md { dump_remote_uri = uri }) phones
by_remote none md phones = nobody (same_remote none) phones (λ meta. refl)
by_remote (some []) md phones = nobody (same_remote (some [])) phones (λ meta. refl)
by_remote (some (c ∷ uri)) md phones =
    first_of-phones_with (same_remote (some (c ∷ uri))) (has_remote (normalize_sip_uri (c ∷ uri)))
      phones (λ meta. refl)

same_port_lem :
    (ports : List ℕ) (meta : PhoneMeta) → same_port ports meta.local_port ≡ has_port ports meta
same_port_lem ports meta = ground arith

named_user :
    (user : Option Text) (msg : Text)
    → mentions (elim (nonempty user) [ none ↦ none | some u ↦ some (sip_user u) ]) msg
      ≡ user_in user msg
named_user none msg = refl
named_user (some []) msg = refl
named_user (some (c ∷ u)) msg = refl

user_in_lem :
    (user : Option Text) (text : Text)
    → user_in user text
      ≡ (elim (nonempty user) [ none ↦ false | some u ↦ has_text (sip_user u) text ])
user_in_lem none text = refl
user_in_lem (some []) text = refl
user_in_lem (some (c ∷ u)) text = refl

by_user :
    (uri : Option Text) (md : SipMetadata) (phones : Dict Text PhoneMeta)
    → first_of (if registers md.method then phones_with (same_user uri) phones else [])
      ≡ owner_by_register (record md { from_uri = uri }) phones
by_user none md phones = elim (Bool-cases (registers md.method)) [
  | inl e ↦ rw e (nobody (same_user none) phones (λ meta. refl))
  | inr e ↦ rw e refl
]
by_user (some []) md phones = elim (Bool-cases (registers md.method)) [
  | inl e ↦ rw e (nobody (same_user (some [])) phones (λ meta. refl))
  | inr e ↦ rw e refl
]
by_user (some (c ∷ uri)) md phones =
    let same =
      first_of-phones_with (same_user (some (c ∷ uri))) (has_user (c ∷ uri)) phones
        (λ meta. user_in_lem meta.username (c ∷ uri)) in
    elim (Option-cases md.method) [
      | inl e ↦ ground (arith, e)
      | inr (m, e) ↦ elim (Bool-cases (m == codes "REGISTER")) [
        | inl k ↦ rw (e, k) same
        | inr k ↦ rw (e, k) refl
      ]
    ]

candidates_lem :
    (md : SipMetadata) (phones : Dict Text PhoneMeta)
    → first_of (candidates md phones) ≡ resolve_owner md phones
unfolding resolve_owner
candidates_lem md phones =
    let dialogs = phones_with (same_dialog md.sip_call_id) phones in
    let remotes = phones_with (same_remote md.dump_remote_uri) phones in
    let ports = phones_with (λ meta. same_port md.via_ports meta.local_port) phones in
    let users = if registers md.method then phones_with (same_user md.from_uri) phones else [] in
    let b =
      first_of-phones_with (λ meta. same_port md.via_ports meta.local_port) (has_port md.via_ports)
        phones (same_port_lem md.via_ports) in
    first_of-append dialogs (remotes ++ (ports ++ users))
    ∙ ap (try_next (first_of dialogs)) (
        first_of-append remotes (ports ++ users)
        ∙ ap (try_next (first_of remotes))
            (first_of-append ports users ∙ (λ i. try_next (b i) (by_user md.from_uri md phones i))))
    ∙ (λ i. try_next (by_dialog md.sip_call_id md phones i) (
        try_next (by_remote md.dump_remote_uri md phones i)
          (try_next (owner_by_port md phones) (owner_by_register md phones))))

named_in :
    (meta : Option PhoneMeta) (msg : Text)
    → mentions
        (elim meta [
          | none ↦ none
          | some m ↦ elim (nonempty m.username) [ none ↦ none | some u ↦ some (sip_user u) ]
        ])
        msg
      ≡ user_in (user_of meta) msg
named_in none msg = refl
named_in (some meta) msg = named_user meta.username msg

names_user_lem :
    (phones : Dict Text PhoneMeta) (target msg : Text)
    → mentions (target_substring phones (some target)) msg
      ≡ (if target == [] then false else user_in (user_of (get phones target)) msg)
unfolding target_substring
names_user_lem phones [] msg = refl
names_user_lem phones (c ∷ t) msg = named_in (get phones (c ∷ t)) msg

abbrev mine : Option Text → Text → Bool → Bool
mine (some owner) target named = owner == target
mine none target named = named

by_mine :
    (o : Option Text) (target : Text) (named : Bool)
    → (elim o [ some owner ↦ owner == target | none ↦ named ]) ≡ mine o target named
by_mine none target named = refl
by_mine (some owner) target named = refl

is_owned_lem :
    (target : Text) (e : LogEntry) (phones : Dict Text PhoneMeta)
    → is_mine target e phones ≡ is_owned target e phones
is_owned_lem target e phones =
    let md = parse_sip_metadata e.msg in
    let named = if target == [] then false else user_in (user_of (get phones target)) e.msg in
    by_mine (resolve_owner md phones) target
      (mentions (target_substring phones (some target)) e.msg)
    ∙ (λ i. mine (sym (candidates_lem md phones) i) target (names_user_lem phones target e.msg i))
    ∙ sym (by_mine (first_of (candidates md phones)) target named)

fits_lem :
    {A : Type 0} ⦃e : Eq A⦄ (wanted found : Option A) → agrees wanted found ≡ fits wanted found
fits_lem none none = refl
fits_lem none (some f) = refl
fits_lem (some w) none = refl
fits_lem (some w) (some f) = refl

in_capitals_lem : (t : Option Text) → norm t ≡ in_capitals t
in_capitals_lem none = refl
in_capitals_lem (some []) = refl
in_capitals_lem (some (c ∷ t)) = refl

is_shown_lem :
    (f : Filters) (target : Text) (phones : Dict Text PhoneMeta) (e : LogEntry)
    → is_let_in f target phones e ≡ is_shown f target phones e
unfolding passes
is_shown_lem f target phones e =
    let md = parse_sip_metadata e.msg in
    let m = ap (λ w. agrees w md.method) (in_capitals_lem f.method) in
    let d = ap (λ w. agrees w md.direction) (in_capitals_lem f.direction) in
    ground (
      arith,
      m ∙ fits_lem (in_capitals f.method) md.method,
      d ∙ fits_lem (in_capitals f.direction) md.direction,
      fits_lem f.status_code md.status_code,
      fits_lem f.cseq md.cseq,
      fits_lem f.target_sip_call_id md.sip_call_id,
      is_owned_lem target e phones,
    )

keep-same :
    (p q : LogEntry → Bool) (es : List LogEntry)
    → ((e : LogEntry) → p e ≡ q e)
    → keep p es ≡ keep q es
keep-same p q [] h = refl
keep-same p q (e ∷ es) h = rw (h e, keep-same p q es h)

-- With a phone to show, exactly those entries come back, in their order, whose method and direction (the
-- filter's put in capitals), status code, number of the CSeq line and Call-ID are those of the filters
-- that are set, and of which the phone is the likeliest owner, or which belong to no phone and name its
-- user. The likeliest owner is the first phone with the Call-ID, else the first with the remote party of
-- a dump, else the first with a port of the Via lines, else, of a REGISTER, the first with its user. The
-- number that comes with them is that of the entries that belong to no phone.
pub filter_entries_by_owner_lem :
    (entries : List LogEntry) (phones : Dict Text PhoneMeta) (f : Filters) (target : Text)
    → f.target_phone ≡ some target
    → let (es, n) = filter_entries_by_owner entries phones f in
      (es ≡ keep (is_shown f target phones) entries) × (n ≡ length (keep (is_unowned phones) es))
filter_entries_by_owner_lem entries phones f target h =
    let es = (filter_entries_by_owner entries phones f).0 in
    let k = filter_entries_by_owner-keep entries phones f target h in
    (
      k.0
          ∙ keep-same (is_let_in f target phones) (is_shown f target phones) entries
              (is_shown_lem f target phones),
      k.1
          ∙ ap length (
              keep-same (is_nameless phones) (is_unowned phones) es (λ e.
                ap (λ o. not (is_some o))
                  (sym (candidates_lem (parse_sip_metadata e.msg) phones)))),
    )
