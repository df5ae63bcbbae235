-- ===== src/Lib.antt =====
-- AjaxBridge: the bridge between Ajax security hubs, Home Assistant and Prometheus.
--
-- A hub opens a TCP connection to the bridge and sends SIA DC-09 frames. The parser
-- (bridge/internal/sia) reads a frame into a normalized event (bridge/internal/event), with its
-- CRC and length tested, its content decrypted, and its code classified by a catalog of events;
-- the responder answers the hub with a frame. The device catalog
-- (bridge/internal/devicecatalog) discovers devices from events. The state engine
-- (bridge/internal/state) applies the event to the accounts and zones, whose snapshots the
-- publisher (bridge/internal/hamqtt) announces and publishes to Home Assistant over MQTT. Jeedom
-- (bridge/internal/jeedom) sends events of single commands, which are mapped to entities, and the
-- notifications (bridge/internal/notifications) tell people of values and control requests by rules.
--
-- The files:
--   * Prelude, Word, Text, Hex, Format: Go's strings, strconv, encoding/hex and fmt, as far as
--     the sources use them, on lists of bytes; Time: time.Time in UTC.
--   * Event: bridge/internal/event/event.go.
--   * Sia: bridge/internal/sia. Sia.Crc is CRC16; Sia.Header is headerPattern and Sia.Frame are
--     parseFrame and validateFrame; Sia.Crypto is crypto.go; Sia.Content holds extractContent,
--     parseContent and what they call; Sia.Timestamp is parseTimestamp, with what
--     time.Parse makes of a match, and timestamp; Sia.Catalog
--     is catalog.go with both tables; Sia.Parser is Parse; Sia.Response is Build.
--   * Dict: maps with string keys, as association lists. DeviceCatalog:
--     bridge/internal/devicecatalog/catalog.go.
--   * State: bridge/internal/state/state.go. State.Accounts and State.Zones are the two kinds of
--     records and the cases of Apply on each; State is the engine.
--   * Store: bridge/internal/store/store.go. Forward: bridge/internal/forward/forward.go. App:
--     handleSIAFrame of bridge/internal/app/app.go, which parses a frame, stores its event, discovers
--     its device, applies it to the engine, forwards it and chooses the answer; App.Frames are the frames
--     one after the other.
--   * Notifications: bridge/internal/notifications. Notifications.Slug is slug.go, .Config the
--     configuration of store.go with its normalisation, .Rules the conditions and the texts of manager.go,
--     .Manager evaluate and the deliveries, .Observe the two entries. Integer and Float are the int64 and
--     the float64 that they use, the latter by its bits.
--   * Jeedom: bridge/internal/jeedom. Jeedom.Runes and Jeedom.Utf8 are the tables of slug.go and what Go
--     makes of runes, Jeedom.Slug is RepairText, Slug and MetricName; Jeedom.Keys is commandKey and
--     canonicalCommandKey, Jeedom.Contract and Jeedom.Mapping the rest of mapping.go,
--     Jeedom.Electrical electrical.go, Jeedom.Translation translation.go, Jeedom.Parser the topics and
--     names of parser.go and Jeedom.Values the values, Jeedom.Control the topics of control.go.
--   * HaMqtt: bridge/internal/hamqtt/publisher.go. HaMqtt.Topics are the topics and identifiers,
--     HaMqtt.Entities the entities of accounts, zones and signals, HaMqtt.Payloads what is published of
--     them, HaMqtt.Plans the announcements and the clearing messages, HaMqtt.Publish the caches, the gates
--     by revision and the publications, with every message that was handed to the client.
--   * Tests: the theorems at concrete inputs.
--
-- A function of the sources has its name in snake case; a method takes its receiver as an argument
-- and gives it back changed. An error is a value of SiaError, with the text that the code looks
-- into. The wall clock is an argument wherever the code reads it. The locks make each operation of
-- the catalog and of the engine one step.
--
-- Bounds and fuel: a repetition of the patterns takes its bytes one by one, so that it ends with
-- the text. ParseHumanName takes a part a turn and has the length of the text for its fuel, the
-- loop over extended data two bytes a turn and the length as well, the loop over the prefixes of
-- SIA-DCS data one byte and the length plus one. format_04x writes up to 16 digits, decimal up to 19. strconv.ParseInt is modelled for the four digits
-- that the length field has. The revision of the engine wraps at 2^64; a duration is not negative.
--
-- Not modelled: bytes from 128 are taken for no letters and no spaces, where Go decodes UTF-8. The
-- AES block functions of crypto/aes are a parameter, with what their documentation says of them.
-- Reading and writing of files, sockets, MQTT, HTTP and the metrics registry are effects of
-- libraries; what a target answers to a forwarded frame is an argument. The texts of float64
-- numbers, time.ParseDuration, SHA-1 and the HTTP client are parameters of the notifications; texts on
-- the Jeedom side are lists of code points, and unicode.ToLower and unicode.ToUpper leave the letters
-- beyond the Latin, Greek and Cyrillic ones in general use. The store,
-- the service and the publisher of Jeedom and the configuration are left out. The publisher for Home Assistant takes
-- encoding/json, the formats of times and the answers of the MQTT client as parameters; its connection,
-- its subscriptions and the timer of its recovery are effects, and each of its publications is one step.
pub mod App
pub mod DeviceCatalog
pub mod Dict
pub mod Event
pub mod Float
pub mod Format
pub mod Forward
pub mod HaMqtt
pub mod Hex
pub mod Integer
pub mod Jeedom
pub mod Notifications
pub mod Prelude
pub mod Sia
pub mod State
pub mod Store
pub mod Tests
pub mod Text
pub mod Time
pub mod Word
