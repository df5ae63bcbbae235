-- ===== src/Event.antt =====
-- bridge/internal/event/event.go
use ajax_bridge.Prelude.{Bool, true, false, List, [], Bytes, codes}
use ajax_bridge.Time.{Time}

-- `Class`; `unset` is the empty string, which an event has before it is classified
pub data Class : Type 0 where
  unset unknown alarm restore arm disarm night tamper trouble test common : Class

-- `string(class)`
unfoldable pub class_text : Class → Bytes
class_text unset = []
class_text unknown = codes "unknown"
class_text alarm = codes "alarm"
class_text restore = codes "restore"
class_text arm = codes "arm"
class_text disarm = codes "disarm"
class_text night = codes "night"
class_text tamper = codes "tamper"
class_text trouble = codes "trouble"
class_text test = codes "test"
class_text common = codes "common"

pub data ParseStatus : Type 0 where
  ok crc_invalid length_invalid format_invalid account_invalid decrypt_invalid : ParseStatus

unfoldable pub status_text : ParseStatus → Bytes
status_text ok = codes "ok"
status_text crc_invalid = codes "crc_invalid"
status_text length_invalid = codes "length_invalid"
status_text format_invalid = codes "format_invalid"
status_text account_invalid = codes "account_invalid"
status_text decrypt_invalid = codes "decrypt_invalid"

pub record XdataEntry : Type 0 where
  pub identifier : Bytes
  pub value : Bytes
  pub raw : Bytes

pub record Normalized : Type 0 where
  pub account : Bytes
  pub protocol : Bytes
  pub sequence : Bytes
  pub receiver : Bytes
  pub line : Bytes
  pub event_code : Bytes
  pub contact_id : Bytes
  pub event_class : Class
  pub event_action : Bytes
  pub event_name : Bytes
  pub description : Bytes
  pub source : Bytes
  pub signal : Bytes
  pub severity : Bytes
  pub partition : Bytes
  pub group : Bytes
  pub zone : Bytes
  pub device : Bytes
  pub user : Bytes
  pub occurred_at : Time
  pub received_at : Time
  pub raw_data : Bytes
  pub raw_payload : Bytes
  pub raw_message : Bytes
  pub xdata : List XdataEntry
  pub parse_status : ParseStatus
  pub parse_error : Bytes
  pub encrypted : Bool

-- `Normalized{}` with the four fields that the parser and the program set at once.
abbrev pub received : Time → Bytes → Normalized
received now line = record {
  account = [];
  protocol = [];
  sequence = [];
  receiver = [];
  line = [];
  event_code = [];
  contact_id = [];
  event_class = unset;
  event_action = [];
  event_name = [];
  description = [];
  source = [];
  signal = [];
  severity = [];
  partition = [];
  group = [];
  zone = [];
  device = [];
  user = [];
  occurred_at = now;
  received_at = now;
  raw_data = [];
  raw_payload = [];
  raw_message = line;
  xdata = [];
  parse_status = ok;
  parse_error = [];
  encrypted = false;
}

-- e.IsValid()
unfoldable pub is_valid : Normalized → Bool
is_valid e = elim e.parse_status [ ok ↦ true | _ ↦ false ]
