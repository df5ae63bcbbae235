-- ===== src/Jeedom/Slug.antt =====
-- `RepairText`, `Slug` and `MetricName` of bridge/internal/jeedom/slug.go. The hash is a parameter.
pub mod Fixed
use ajax_bridge.Prelude.{
  ℕ, ◌+◌, Bool, true, false, not, ◌&&◌, ◌||◌, Option, none, some, [], ◌∷◌, ◌++◌, ltb, ◌==◌,
  if◌then◌else◌, Bytes, codes, is_empty, eqb, map,
}
use ajax_bridge.Text.{has_prefix, trim}
use ajax_bridge.Notifications.Slug.{is_slug_byte, is_underscore}
use ajax_bridge.Jeedom.Runes.{
  fold_latin, transliterate_cyrillic, cp1251_byte, is_mojibake, is_cyrillic, lower_rune, trim_runes,
}
use ajax_bridge.Jeedom.Utf8.{push_rune, push_some, decode_runes}

-- The loop of `decodeCP1251Mojibake`: the bytes that the runes stand for.
unfoldable pub cp1251_bytes : Bytes → Option Bytes
cp1251_bytes [] = some []
cp1251_bytes (r ∷ rs) =
    let rest = cp1251_bytes rs in
    if ltb r 128 then push_rune r rest else push_some (cp1251_byte r) rest

abbrev pub decode_of : Option Bytes → Option Bytes
decode_of none = none
decode_of (some bytes) = decode_runes bytes

unfoldable pub decode_cp1251_mojibake : Bytes → Option Bytes
decode_cp1251_mojibake value = decode_of (cp1251_bytes value)

-- How many of the runes pass.
unfoldable pub count_runes : (ℕ → Bool) → Bytes → ℕ
count_runes p [] = 0
count_runes p (r ∷ rs) = let rest = count_runes p rs in if p r then rest + 1 else rest

unfoldable pub mojibake_score : Bytes → ℕ
mojibake_score = count_runes is_mojibake

unfoldable pub cyrillic_count : Bytes → ℕ
cyrillic_count = count_runes is_cyrillic

-- The text or its decoded form.
unfoldable pub better_text : Bytes → Option Bytes → Bytes
better_text value none = value
better_text value (some decoded) =
    if eqb decoded value
    then value
    else if ltb (mojibake_score decoded) (mojibake_score value)
        || ltb (cyrillic_count value) (cyrillic_count decoded)
    then decoded
    else value

unfoldable pub repair_text : Bytes → Bytes
repair_text value =
    let text = trim_runes value in
    if is_empty text then [] else better_text text (decode_cp1251_mojibake text)

-- The loop of `Slug`; the flag is `lastSeparator`.
unfoldable pub slug_runes : Bool → Bytes → Bytes
slug_runes last_separator [] = []
slug_runes last_separator (r ∷ rs) =
    let c = lower_rune (fold_latin r) in
    let behind = slug_runes false rs in
    let dropped = slug_runes true rs in
    if is_slug_byte c
    then c ∷ behind
    else if not (is_empty (transliterate_cyrillic c))
    then transliterate_cyrillic c ++ behind
    else if last_separator
    then dropped
    else b'_' ∷ dropped

abbrev pub or_hash : (Bytes → Bytes) → Bytes → Bytes → Bytes
or_hash short_hash original out = if is_empty out then codes "dev_" ++ short_hash original else out

module _ (short_hash : Bytes → Bytes) where
  -- `Slug`
  unfoldable pub slug : Bytes → Bytes
  slug value =
      or_hash short_hash (trim_runes value)
        (trim is_underscore (slug_runes false (repair_text (trim_runes value))))

  -- `MetricName`
  unfoldable pub metric_name : Bytes → Bytes → Bytes
  metric_name value fallback =
      let name = slug value in
      if has_prefix name (codes "dev_") && not (is_empty fallback)
      then fallback
      else map (λ c. if c == b'-' then b'_' else c) name
