-- ===== src/Sia/Frame/Receiver.antt =====
-- The receiver and the line that `parseFrame` reads from a header.
use ajax_bridge.Prelude.{
  true, false, [], ◌∷◌, ◌++◌, Bytes, codes, all, all-append, ◌≡◌, ◌≢◌, refl, arith,
}
use ajax_bridge.Text.{is_alnum}
use ajax_bridge.Hex.{is_hex, is_hex_byte}
use ajax_bridge.Sia.Header.Captures.{Route, received, IsHeader, header_text, match_header-run}
use ajax_bridge.Sia.Frame.{Frame, fallback, split_prefix, fill_groups, parse_frame}
use ajax_bridge.Sia.Frame.Framing.{parse_frame-matched}

pub append-ne_nil : (s t : Bytes) → s ≢ [] → s ++ t ≢ []
append-ne_nil [] t ne = absurd (ne refl)
append-ne_nil (c ∷ s) t ne = λ e. cc e

abbrev bare_frame : Bytes → Frame
bare_frame line = record {
  raw = line;
  crc = [];
  length_field = [];
  payload = line;
  token = [];
  encrypted = false;
  sequence = [];
  receiver = [];
  line = [];
  account = [];
}

-- A line that begins with a quote has no CRC and no length in front.
split_prefix-quote : (s : Bytes) → split_prefix (b'"' ∷ s) ≡ bare_frame (b'"' ∷ s)
unfolding split_prefix is_hex is_hex_byte
split_prefix-quote s = ground arith

module _ (token sequence account rest : Bytes) (h : IsHeader token sequence account rest) where
  parse_frame-header :
      {path receiver line : Bytes}
      → Route path receiver line
      → ((parse_frame (header_text token sequence path account rest)).0.receiver
          ≡ fallback receiver (codes "R0"))
        × ((parse_frame (header_text token sequence path account rest)).0.line
            ≡ fallback line (codes "L0"))
  unfolding fill_groups
  parse_frame-header {path} r =
      let text = header_text token sequence path account rest in
      let e =
        parse_frame-matched text {frame = bare_frame text} (split_prefix-quote _)
          (match_header-run token sequence account rest h r) in
      rw e (refl, refl)

  -- Of a header with a receiver and a line, as `R0L0`, whatever their letters and digits are, the
  -- frame takes both together for its receiver, and "L0" for its line: the line that the header
  -- names is not read.
  pub line_swallowed :
      (r l : Bytes)
      → r ≢ []
      → all is_alnum r ≡ true
      → all is_alnum l ≡ true
      → let frame =
          (parse_frame (header_text token sequence (b'R' ∷ (r ++ (b'L' ∷ l))) account rest)).0 in
        (frame.receiver ≡ b'R' ∷ (r ++ (b'L' ∷ l))) × (frame.line ≡ codes "L0")
  unfolding fallback
  line_swallowed r l ne hr hl = parse_frame-header (
      received (r ++ (b'L' ∷ l)) (append-ne_nil r (b'L' ∷ l) ne)
        (all-append is_alnum r (b'L' ∷ l) hr (ground arith)))
