-- ===== src/Bus/Delivery.antt =====
-- To whom the bus of src/scenario_engine/event_bus.py delivers an event, and who is left.
use pjsua_mcp.Prelude.{
  ℕ, ◌+◌, ◌≡◌, refl, ap, ◌∙◌, Bool, true, false, ◌&&◌, ◌==◌, none, some, List, [], ◌∷◌, map, arith,
  nat_eq, any, keep, contains, if◌then◌else◌,
}
use pjsua_mcp.Text.{Text}
use pjsua_mcp.Dict.{Dict, get, set, has, pop_all, get-set, get-pop, get-pop_all}
use pjsua_mcp.Bus.{
  Subscription, Bus, matches_one, wants, subscriptions, subscribe, unsubscribe, receivers, once_ids,
  deliver, emit,
}

-- The subscription is active and one of its patterns matches the type.
abbrev pub is_meant : Text → Subscription → Bool
is_meant type sub = if sub.active then any (λ p. matches_one type p) sub.patterns else false

-- The list, from its end on, before the log.
abbrev pub newest_first {ℓ} : {A : Type ℓ} → List A → List A → List A
newest_first [] log = log
newest_first (x ∷ xs) log = newest_first xs (x ∷ log)

is_meant_lem : (type : Text) (sub : Subscription) → wants type sub ≡ is_meant type sub
is_meant_lem type sub = ground arith

receivers_lem :
    (type : Text) (d : Dict ℕ Subscription)
    → keep (wants type) (subscriptions d) ≡ keep (is_meant type) (map (λ entry. entry.1) d)
receivers_lem type [] = refl
receivers_lem type ((id, sub) ∷ d) = rw (is_meant_lem type sub, receivers_lem type d)

once_ids_lem :
    (id : ℕ) (subs : List Subscription)
    → contains id (once_ids subs) ≡ any (λ sub. sub.once && sub.sub_id == id) subs
once_ids_lem id [] = refl
once_ids_lem id (sub ∷ subs) = ground (arith, once_ids_lem id subs)

module _ {E : Type 0} (type_of : E → Text) where
  -- Callbacks that only write down that they were called, with the newest call first.
  abbrev pub note : ℕ → E → Bus × List (ℕ × E) → Bus × List (ℕ × E)
  note id event (bus, log) = (bus, (id, event) ∷ log)

  abbrev pub noted : E → List Subscription → List (ℕ × E) → List (ℕ × E)
  noted event [] log = log
  noted event (sub ∷ subs) log = noted event subs ((sub.sub_id, event) ∷ log)

  noted_lem :
      (event : E) (subs : List Subscription) (log : List (ℕ × E))
      → noted event subs log ≡ newest_first (map (λ sub. (sub.sub_id, event)) subs) log
  noted_lem event [] log = refl
  noted_lem event (sub ∷ subs) log = noted_lem event subs ((sub.sub_id, event) ∷ log)

  deliver_lem :
      (event : E) (subs : List Subscription) (bus : Bus) (log : List (ℕ × E))
      → deliver type_of note event subs (bus, log) ≡ (bus, noted event subs log)
  unfolding deliver
  deliver_lem event [] bus log = refl
  deliver_lem event (sub ∷ subs) bus log = deliver_lem event subs bus ((sub.sub_id, event) ∷ log)

  -- An event, where the callbacks leave the bus alone, reaches every subscription that is active and has
  -- a pattern that matches its type, once each and in the order of the table, with the newest call first
  -- in the log; afterwards the entries under the ids of those of them that were for one event are gone,
  -- and every other entry is as before.
  pub emit_lem :
      (event : E) (bus : Bus) (log : List (ℕ × E)) (id : ℕ)
      → let meant = keep (is_meant (type_of event)) (map (λ entry. entry.1) bus.subs) in
        let (bus', log') = emit type_of note event (bus, log) in
        (log' ≡ newest_first (map (λ sub. (sub.sub_id, event)) meant) log)
        × (get bus'.subs id
            ≡ (if any (λ sub. sub.once && sub.sub_id == id) meant then none else get bus.subs id))
        × (bus'.next_id ≡ bus.next_id)
  unfolding emit
  emit_lem event bus log id =
      let type = type_of event in
      let subs = receivers type bus in
      let meant = keep (is_meant type) (map (λ entry. entry.1) bus.subs) in
      let d = deliver_lem event subs bus log in
      let same = receivers_lem type bus.subs in
      (
        ap (λ (s : Bus × List (ℕ × E)). s.1) d
            ∙ ap (λ subs. noted event subs log) same
            ∙ noted_lem event meant log,
        ap (λ (s : Bus × List (ℕ × E)). get (pop_all s.0.subs (once_ids subs)) id) d
            ∙ get-pop_all bus.subs (once_ids subs) id
            ∙ ap (λ b. if b then none else get bus.subs id)
                (ap (λ subs. contains id (once_ids subs)) same ∙ once_ids_lem id meant),
        ap (λ (s : Bus × List (ℕ × E)). s.0.next_id) d,
      )

-- No id from the next one on is in the table.
abbrev pub IsBelow : Bus → Type 0
IsBelow bus = (k : ℕ) → has bus.subs (bus.next_id + k) ≡ false

-- If no id from the next one on is in the table, a new subscription gets an id that is not in the
-- table, is found under it with its patterns, and changes no other; the condition holds again; and
-- when it is cancelled at once, every entry is as before.
pub subscribe_lem :
    (patterns : List Text) (once : Bool) (bus : Bus)
    → IsBelow bus
    → let (id, bus') = subscribe patterns once bus in
      (has bus.subs id ≡ false)
      × (get bus'.subs id
          ≡ some (record { sub_id = id; patterns = patterns; once = once; active = true }))
      × IsBelow bus'
      × ((j : ℕ) → get (unsubscribe id bus').subs j ≡ get bus.subs j)
unfolding subscribe unsubscribe
subscribe_lem patterns once bus h =
    let id = bus.next_id in
    let sub : Subscription = record {
      sub_id = id;
      patterns = patterns;
      once = once;
      active = true;
    } in
    (
      ground (arith, h 0),
      ground (arith, get-set bus.subs id id sub, nat_eq.beq_iff id id),
      λ k.
          ground (
            arith,
            get-set bus.subs id (id + 1 + k) sub,
            nat_eq.beq_iff id (id + 1 + k),
            h (1 + k),
          ),
      λ j. ground (
        arith,
        get-set bus.subs id j sub,
        get-pop (set bus.subs id sub) id j,
        nat_eq.beq_iff id j,
        h 0,
      ),
    )
