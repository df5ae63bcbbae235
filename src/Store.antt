-- ===== src/Store.antt =====
-- bridge/internal/store/store.go. The lock makes every operation one step; the wall clock and the error of
-- the context are arguments.
pub mod Log
use ajax_bridge.Prelude.{
  ℕ, zero, suc, ◌+◌, ◌-◌, ◌%◌, ◌^◌, Bool, Option, none, some, List, [], ◌∷◌, ◌++◌, ltb,
  if◌then◌else◌, Bytes, length, drop,
}
pub use ajax_bridge.Integer.{ℤ, pos, negsuc}
use ajax_bridge.Time.{Time}
use ajax_bridge.Event.{XdataEntry, Normalized, class_text, status_text}

pub record EventRecord : Type 0 where
  pub id : ℕ
  pub created_at : Time
  pub account : Bytes
  pub protocol : Bytes
  pub sequence : Bytes
  pub receiver : Bytes
  pub line : Bytes
  pub event_code : Bytes
  pub contact_id : Bytes
  pub event_class : Bytes
  pub event_action : Bytes
  pub event_name : Bytes
  pub description : Bytes
  pub source : Bytes
  pub signal : Bytes
  pub severity : Bytes
  pub partition : Bytes
  pub group : Bytes
  pub zone : Bytes
  pub device : Bytes
  pub user : Bytes
  pub occurred_at : Time
  pub received_at : Time
  pub raw_data : Bytes
  pub raw_payload : Bytes
  pub raw_message : Bytes
  pub xdata : List XdataEntry
  pub parse_status : Bytes
  pub parse_error : Bytes
  pub encrypted : Bool

pub record Store : Type 0 where
  pub next_id : ℕ
  pub events : List EventRecord

abbrev pub new_store : Store
new_store = record { next_id = 0; events = [] }

unfoldable pub event_record : ℕ → Time → Normalized → EventRecord
event_record id now e = record {
  id = id;
  created_at = now;
  account = e.account;
  protocol = e.protocol;
  sequence = e.sequence;
  receiver = e.receiver;
  line = e.line;
  event_code = e.event_code;
  contact_id = e.contact_id;
  event_class = class_text e.event_class;
  event_action = e.event_action;
  event_name = e.event_name;
  description = e.description;
  source = e.source;
  signal = e.signal;
  severity = e.severity;
  partition = e.partition;
  group = e.group;
  zone = e.zone;
  device = e.device;
  user = e.user;
  occurred_at = e.occurred_at;
  received_at = e.received_at;
  raw_data = e.raw_data;
  raw_payload = e.raw_payload;
  raw_message = e.raw_message;
  xdata = e.xdata;
  parse_status = status_text e.parse_status;
  parse_error = e.parse_error;
  encrypted = e.encrypted;
}

-- s.AppendEvent(ctx, evt): its error, which is that of a context that is done, and the store
unfoldable pub append_event : Option Bytes → Time → Store → Normalized → Option Bytes × Store
append_event (some why) now s e = (some why, s)
append_event none now s e =
    let id = (s.next_id + 1) % 2 ^ 64 in
    (none, record s { next_id = id; events = s.events ++ event_record id now e ∷ [] })

-- The limit that `ListEvents` goes on with, for a number of events.
unfoldable pub effective_limit : ℤ → ℕ → ℕ
effective_limit (negsuc n) count = count
effective_limit (pos zero) count = count
effective_limit (pos (suc n)) count = if ltb count (suc n) then count else suc n

-- s.ListEvents(limit)
unfoldable pub list_events : Store → ℤ → List EventRecord
list_events s limit = drop (length s.events - effective_limit limit (length s.events)) s.events

-- s.Count()
unfoldable pub count : Store → ℕ
count s = length s.events
