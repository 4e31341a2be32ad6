-- ===== src/Scenario/Timeline.antt =====
-- `Timeline` and `TimelineRecorder` of src/scenario_engine/timeline.py. Times are texts, as `repr` makes
-- them; the offset of a time from the start of the timeline, a computation on floats, is a parameter.
use pjsua_mcp.Prelude.{
  ℕ, Bool, true, false, ◌&&◌, Option, none, some, List, [], ◌∷◌, ◌++◌, nat_eq, ◌==◌, keep,
}
use pjsua_mcp.Text.{Text, text_eq, codes}
use pjsua_mcp.Bus.{Bus, subscribe, unsubscribe}
use pjsua_mcp.Scenario.Value.{Fields}
use pjsua_mcp.Scenario.Matching.{Event}

-- `kind`: "event", "action" or "meta"
pub data Kind : Type 0 where
  of_event of_action of_meta : Kind

-- `TimelineEntry`; `payload` is its `data`.
pub record TimelineEntry : Type 0 where
  pub kind : Kind
  pub ts : Text
  pub ts_offset_ms : Text
  pub type : Text
  pub phone_id : Option Text
  pub call_id : Option ℕ
  pub payload : Fields
  pub hook_id : Option Text
  pub pattern_name : Option Text

-- `Timeline`
pub record Timeline : Type 0 where
  pub t0 : Text
  pub entries : List TimelineEntry

-- `Timeline(t0=t)`
abbrev pub new_timeline : Text → Timeline
new_timeline t = record { t0 = t; entries = [] }

-- `add`
abbrev pub add : TimelineEntry → Timeline → Timeline
add entry tl = record tl { entries = tl.entries ++ entry ∷ [] }

abbrev is_of_phone : Option Text → TimelineEntry → Bool
is_of_phone none e = true
is_of_phone (some p) e = elim e.phone_id [ none ↦ false | some q ↦ q == p ]

-- `find`
unfoldable pub find : Text → Option Text → Timeline → List TimelineEntry
find type phone tl = keep (λ e. e.type == type && is_of_phone phone e) tl.entries

-- `has_any`
unfoldable pub has_any : Text → Option Text → Timeline → Bool
unfolding find
has_any type phone tl = elim (find type phone tl) [ [] ↦ false | e ∷ es ↦ true ]

-- `TimelineRecorder`
pub record TimelineRecorder : Type 0 where
  pub timeline : Timeline
  pub sub_id : Option ℕ

-- `TimelineRecorder(bus, timeline)`
abbrev pub new_recorder : Timeline → TimelineRecorder
new_recorder tl = record { timeline = tl; sub_id = none }

abbrev pub start_from : Option ℕ → Bus × TimelineRecorder → Bus × TimelineRecorder
start_from (some id) s = s
start_from none (bus, rec) =
    let (id, bus') = subscribe (codes "*" ∷ []) false bus in (bus', record rec { sub_id = some id })

-- `start`
unfoldable pub start : Bus × TimelineRecorder → Bus × TimelineRecorder
unfolding subscribe
start s = start_from s.1.sub_id s

abbrev pub stop_from : Option ℕ → Bus × TimelineRecorder → Bus × TimelineRecorder
stop_from none s = s
stop_from (some id) (bus, rec) = (unsubscribe id bus, record rec { sub_id = none })

-- `stop`
unfoldable pub stop : Bus × TimelineRecorder → Bus × TimelineRecorder
unfolding unsubscribe
stop s = stop_from s.1.sub_id s

module _ (offset_ms : Text → Text → Text) where
  -- The entry that `_on_event` adds.
  abbrev pub entry_of : Text → Event → TimelineEntry
  entry_of t0 ev = record {
    kind = of_event;
    ts = ev.timestamp;
    ts_offset_ms = offset_ms ev.timestamp t0;
    type = ev.type;
    phone_id = ev.phone_id;
    call_id = ev.call_id;
    payload = ev.payload;
    hook_id = none;
    pattern_name = none;
  }

  -- `_on_event`
  abbrev pub on_event : Event → TimelineRecorder → TimelineRecorder
  on_event ev rec = record rec { timeline = add (entry_of rec.timeline.t0 ev) rec.timeline }

  -- `record_meta`, at the time `ts`
  abbrev pub record_meta : Text → Fields → Text → TimelineRecorder → TimelineRecorder
  record_meta type payload ts rec =
      let entry : TimelineEntry = record {
        kind = of_meta;
        ts = ts;
        ts_offset_ms = offset_ms ts rec.timeline.t0;
        type = type;
        phone_id = none;
        call_id = none;
        payload = payload;
        hook_id = none;
        pattern_name = none;
      } in
      record rec { timeline = add entry rec.timeline }

  -- `record_action`, at the time `ts`
  abbrev pub record_action :
      Text
      → Option Text
      → Option ℕ
      → Fields
      → Option Text
      → Option Text
      → Text
      → TimelineRecorder
      → TimelineRecorder
  record_action action phone call payload hook_id pattern_name ts rec =
      let entry : TimelineEntry = record {
        kind = of_action;
        ts = ts;
        ts_offset_ms = offset_ms ts rec.timeline.t0;
        type = action;
        phone_id = phone;
        call_id = call;
        payload = payload;
        hook_id = hook_id;
        pattern_name = pattern_name;
      } in
      record rec { timeline = add entry rec.timeline }
