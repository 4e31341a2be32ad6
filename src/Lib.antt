-- ===== src/Lib.antt =====
-- A model of pjsua_mcp, a server that drives SIP phones through pjsua2, and proofs about it.
--
-- The program (Python, under `src/`) is one process. `SipEngine` (src/sip_engine.py) starts the SIP
-- library and makes transports. `PhoneRegistry` (src/account_manager.py) adds and drops phones, each
-- with an account and a transport of its own, and calls two hooks of `CallManager` when it does.
-- `CallManager` (src/call_manager.py) keeps the table of calls, the owner of each, a queue of
-- incoming calls and one of pending auto-answers for each phone, the history, and the counter and the
-- queues that start and stop captures. Each call is a `SipCall` of the same file, with a recorder and a
-- player, that the library calls back. `PcapManager` (src/pcap_manager.py) runs one tcpdump for each
-- phone. The poll loop of src/server.py answers pending calls and starts and stops captures. The event
-- bus of the scenario engine hands the events of all of these to its subscribers; the hooks of a
-- scenario, which the validator has looked at before, match events and have actions executed; the
-- orchestrator arms them, runs the first actions, waits for a stop condition and takes everything off the
-- bus again. src/server.py gives each phone tools of its own (src/phone_tool_factory.py) and loads the
-- phones of a profile. A call
-- has the codecs of its offers cut down by src/sdp_rewriter.py. The SIP library logs to a `SipLogWriter`
-- (src/sip_logger.py), and clients read that log by phone.
--
-- Which file models what:
--   Pj        what is outside the repository: the SIP library, the clock, the files, subprocesses
--   State     the state of the four components as records
--   Call      `SipCall`: Call/Data its fields, Call/Audio `_start_recording`, `_stop_recording`,
--             `_reconnect_recorder` and the sidecar, Call/Playback the player, Call/Callbacks
--             `onCallState` and `onCallMediaState`; Call/Consistency, Call/Sidecars, Call/Identity and
--             Call/Life are proofs
--   Engine    `SipEngine.initialize`, `create_transport`, `close_transport`, `shutdown`
--   Capture   `PcapManager`
--   Calls     `CallManager`: Calls/Lookup `_resolve_phone`, `_get_call` and what they use,
--             Calls/AutoCapture the counter and its queues, Calls/Lifecycle calls and phones that come
--             and go, Calls/Operations and Calls/Media the methods that clients call; the other
--             modules are proofs
--   Phones    `PhoneRegistry` and `SipAccount`; Phones/Keeping, Phones/Adding and
--             Phones/Registration are proofs
--   Bus       `EventBus` of src/scenario_engine/event_bus.py: `subscribe`, `unsubscribe`, `emit` and
--             `_matches`; Bus/Delivery and Bus/Matching are proofs
--   Sdp       `filter_audio_codecs` of src/sdp_rewriter.py, which Call/Offer (`onCallSdpCreated`) calls;
--             Sdp/Reference is the same in one pass, Sdp/Blocks, Sdp/Passes and Sdp/Filter are proofs
--   SipLog    `SipLogWriter` of src/sip_logger.py; SipLog/Patterns its regular expressions,
--             SipLog/Metadata `parse_sip_metadata`, SipLog/Owner `_resolve_owner` and
--             `filter_entries_by_owner`, SipLog/Headers `parse_sip_headers`,
--             SipLog/Codecs and SipLog/SdpBody `parse_sdp_body`, SipLog/Messages
--             `structurize_message`; SipLog/Ownership, SipLog/Shown, SipLog/HeaderNames, SipLog/PayloadTypes and
--             SipLog/Window are proofs
--   Scenario  src/scenario_engine: Scenario/Value Python's values, Scenario/Matching what a hook of
--             hook_runtime.py matches, Scenario/Actions `normalize_action` and `execute` of
--             action_executor.py, Scenario/Commands, Scenario/Durations and Scenario/Handlers its
--             handlers, Scenario/Hooks `HookRuntime`, Scenario/Validator validator.py,
--             Scenario/Timeline timeline.py;
--             Scenario/StatusClass, Scenario/Targets, Scenario/Firing and Scenario/Validation are
--             proofs
--   Scenario/Run  `ScenarioRunner.run` of orchestrator.py: Scenario/Run itself the state of a run and
--             what happens to it, Scenario/Run/Parts the result and the stop conditions,
--             Scenario/Run/Phases the phases up to the end of the wait, Scenario/Run/Whole the cleanup
--             and `run`; Ownership, Arming, Acting, Shrinking, Restored, OnceIds, Others, Leaving, Earned,
--             Stopping and Refusing are proofs
--   Server    Server/Names the names of the tools and `_validate_phone_id`, Server/Phones
--             `register_phone_tools`, `unregister_phone_tools`, `_add_phone_impl`, `_drop_phone_impl` and
--             `load_phones` over the interface `McpTools` and the registry, Server/Profile
--             `_load_profile_yaml`; Server/Apart, Server/Registry, Server/Offered, Server/Synced, Server/Effects, Server/Loading and
--             Server/Accepted are proofs
--   Reach     the whole as a state machine: operations, callbacks and polls in any order
--   Fixtures  concrete libraries and states for the tests
--   Text      texts as lists of code points; Text/Regex is a backtracking matcher
--   Prelude, Dict, Exec  lists, dictionaries in insertion order, methods that may raise
-- A definition has the name of the Python function, without a leading underscore; where it differs
-- or models a part, a comment above it names what it models.
--
-- How the code is read:
--   - What the program asks of the world outside is written to a trace, the newest action first. What
--     it hears back is a function of the trace, given by a record `Pj` that every definition takes
--     as a parameter; so the proofs hold for every behaviour of the library.
--   - A method that may raise returns its state beside the result, with what it had written before.
--   - Ids of calls, statuses, ports and durations are natural numbers; file names are records of what
--     they are made of; the clock and the RTP ports that the library reports are parameters.
--   - Each method runs to its end before another starts: locks and threads are not modelled, and an
--     `await` is taken as a plain call. Log output is left out.
--   - A callback for a call that is no longer in the table has no object and changes nothing. A
--     callback that pokes the manager is applied after the call's own part, since neither reads
--     what the other writes.
--   - The library does not call back within `makeCall`: an `onCallState` that it delivers before the call
--     is in the table is taken to come after. `getAudioMedia` of a medium that is active gives a port
--     and does not raise. That the sidecar of a recording is in the trace says that its writing was
--     tried; a failure is swallowed, as in the source.
--   - The id of a phone is not the empty text, where `_ensure_incoming_handler` reads that as "all".
--   - Classes of characters and case are those of ASCII.
--   - What comes of a handler's command, `re.search` of a pattern that a scenario gives, and the
--     rounding of fractions of a second are parameters.
--   - A run of a scenario is a row of steps, in the order in which threads and coroutines touch the bus
--     and the timeline: an event, a record, or a turn of the event loop. What an action does is a row of
--     such steps that may depend on the time; the row of the wait ends where its time is over. The
--     subscription that `wait_for` makes for a `wait_until` while it waits, and which may outlast the
--     run, is left out: runs are read as runs without that action. The callbacks of other subscribers
--     are a parameter, which says whom they unsubscribe at an event.
--   - FastMCP's tools are a record of operations and laws; the registry below `load_phones` is Phones. That
--     `uuid4` gives no id twice is a hypothesis. A YAML file is the value that it holds.
--   - Every loop is a recursion on the list that it goes through; only the digits of a number are
--     written with fuel, one more than the number.
--
-- Not modelled: the extra headers of `make_call`, the content type of an outgoing message, reports
-- that only format state (`get_call_info`, `list_calls`, `list_phones`, `to_list`), codec priorities; of
-- the scenario engine what the rows of the timeline say of each action, how the commands of the handlers
-- reach the managers, the sweep for artifacts, which walks directories, and the making of a scenario from
-- a dictionary; the analysis of captures; the tools themselves, which pass their arguments on, and
-- `update_phone` with the queries of the SIP log in src/server.py.
pub mod Prelude
pub mod Fixtures
pub mod Dict
pub mod Exec
pub mod Text
pub mod Pj
pub mod Call
pub mod State
pub mod Engine
pub mod Capture
pub mod Calls
pub mod Phones
pub mod Bus
pub mod Sdp
pub mod Server
pub mod SipLog
pub mod Scenario
pub mod Reach
