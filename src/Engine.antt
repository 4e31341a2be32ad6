-- ===== src/Engine.antt =====
-- `SipEngine` of src/sip_engine.py: the library's lifecycle and its transports.
use pjsua_mcp.Prelude.{ℕ, String, true, false, not, Option, none, some, ◌==◌, if◌then◌else◌}
use pjsua_mcp.Exec.{
  Exec, engine_already_initialized, engine_not_initialized, unsupported_transport, raise_if, modify,
  pure, gets, require, ◌>>=◌, ◌>>◌,
}
use pjsua_mcp.Text.{codes, lower, text_eq}
use pjsua_mcp.Pj.{
  Pj, Transport, udp, tcp, tls, start_library, destroy_library, create_transport, transport_created,
  close_transport,
}
use pjsua_mcp.State.{Sys, attempt, issue}

-- `TRANSPORT_MAP`, at the name in lower case
abbrev pub transport_kind : String → Option Transport
transport_kind name =
    let low = lower (codes name) in
    if low == codes "udp"
    then some udp
    else if low == codes "tcp"
    then some tcp
    else if low == codes "tls"
    then some tls
    else none

module _ (pj : Pj) where
  -- `initialize`
  unfoldable pub initialize : Exec Sys (Unit {0})
  initialize = do
    raise_if (← gets (λ s. s.initialized)) engine_already_initialized
    issue pj start_library
    modify (λ s. record s { initialized = true })

  -- `create_transport`; the id that the library returns goes to the trace.
  unfoldable pub open_transport : String → ℕ → Exec Sys ℕ
  open_transport transport local_port = do
    kind ← require (transport_kind transport) unsupported_transport
    raise_if (not (← gets (λ s. s.initialized))) engine_not_initialized
    issue pj (create_transport kind local_port)
    id ← gets (λ s. pj.new_transport s.trace)
    modify (attempt (transport_created id))
    pure id

  -- `close_transport`
  unfoldable pub shut_transport : ℕ → Sys → Sys
  shut_transport id s = if s.initialized then attempt (close_transport id) s else s

-- `shutdown`
unfoldable pub shutdown : Sys → Sys
shutdown s = if s.initialized then record (attempt destroy_library s) { initialized = false } else s
