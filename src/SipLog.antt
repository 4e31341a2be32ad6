-- ===== src/SipLog.antt =====
-- `SipLogWriter` of src/sip_logger.py, the bounded log of the SIP library's messages. The lock is
-- not modelled: one thread at a time.
pub mod Patterns
pub mod Metadata
pub mod Owner
pub mod Headers
pub mod HeaderNames
pub mod Codecs
pub mod SdpBody
pub mod PayloadTypes
pub mod Messages
pub mod Ownership
pub mod Shown
pub mod Window
pub mod Tests
use pjsua_mcp.Prelude.{
  ℕ, zero, suc, ◌+◌, ◌-◌, Bool, true, false, not, ◌&&◌, ◌||◌, Option, none, some, List, [], ◌∷◌,
  ◌++◌, nat_eq, ◌==◌, length, drop, keep, push, if◌then◌else◌,
}
use pjsua_mcp.Text.{Text, text_eq}
use pjsua_mcp.Text.Integer.{ℤ, pos, negsuc}
use pjsua_mcp.Text.Scan.{has_text}

-- `LogEntry`, and the dictionary that `get_entries` makes of it
pub record LogEntry : Type 0 where
  pub level : ℕ
  pub msg : Text
  pub thread_name : Text

-- `SipLogWriter`; the deque's bound is fixed when it is made.
pub record SipLogWriter : Type 0 where
  pub max_entries : ℕ
  pub entries : List LogEntry

abbrev pub new_writer : ℕ → SipLogWriter
new_writer max_entries = record { max_entries = max_entries; entries = [] }

-- `msg.rstrip("\n")`
unfoldable pub rstrip_lf : Text → Text
rstrip_lf [] = []
rstrip_lf (c ∷ t) = let rest = rstrip_lf t in if rest == [] && c == b'\n' then [] else c ∷ rest

-- The entry that `write` keeps of a message.
abbrev pub stripped : LogEntry → LogEntry
stripped e = record e { msg = rstrip_lf e.msg }

-- `write`
unfoldable pub write : LogEntry → SipLogWriter → SipLogWriter
unfolding push rstrip_lf
write e w = record w { entries = push w.max_entries w.entries (stripped e) }

-- `clear`
unfoldable pub clear : SipLogWriter → SipLogWriter
clear w = record w { entries = [] }

-- `entries[-last_n:]`
abbrev pub slice_last {ℓ} : {A : Type ℓ} → ℤ → List A → List A
slice_last (pos zero) es = es
slice_last (pos (suc n)) es = drop (length es - suc n) es
slice_last (negsuc n) es = drop (suc n) es

abbrev pub with_text : Option Text → List LogEntry → List LogEntry
with_text none es = es
with_text (some filter_text) es =
    if filter_text == [] then es else keep (λ (e : LogEntry). has_text filter_text e.msg) es

abbrev pub cut_to : Option ℤ → List LogEntry → List LogEntry
cut_to none es = es
cut_to (some last_n) es = slice_last last_n es

-- `get_entries`
unfoldable pub get_entries : Option ℤ → Option Text → SipLogWriter → List LogEntry
unfolding has_text
get_entries last_n filter_text w = cut_to last_n (with_text filter_text w.entries)
