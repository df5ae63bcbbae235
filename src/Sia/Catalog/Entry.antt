-- ===== src/Sia/Catalog/Entry.antt =====
-- `eventInfo` of bridge/internal/sia/catalog.go.
use ajax_bridge.Prelude.{Bool, [], String, Bytes, codes}
use ajax_bridge.Event.{Class}

pub record EventInfo : Type 0 where
  pub class : Class
  pub action : Bytes
  pub name : Bytes
  pub description : Bytes
  pub source : Bytes
  pub signal : Bytes
  pub severity : Bytes
  pub restore : Bool

-- A row of the tables: no row has a description.
abbrev pub entry :
    String → Class → String → String → String → String → String → Bool → Bytes × EventInfo
entry code class action name source signal severity restore = (
  codes code,
  record {
    class = class;
    action = codes action;
    name = codes name;
    description = [];
    source = codes source;
    signal = codes signal;
    severity = codes severity;
    restore = restore;
  },
)
