-- ===== src/Tests/Values.antt =====
-- The values of commands in bridge/internal/jeedom at concrete inputs.
use ajax_bridge.Prelude.{true, false, not, none, some, codes, eqb, ◌≡◌, refl}
use ajax_bridge.Text.{trim, trim_left, trim_right}
use ajax_bridge.Jeedom.Runes.{
  trim_runes, is_space_rune, fold_latin, latin_rows, upper_rune, is_far_small, is_paired_small,
}
use ajax_bridge.Jeedom.Utf8.{decode_runes}
use ajax_bridge.Jeedom.Slug.{repair_text, better_text, decode_cp1251_mojibake, cp1251_bytes}
use ajax_bridge.Jeedom.Electrical.{Mapping, binary_mapping}
use ajax_bridge.Jeedom.Values.{
  Reader, bool_raw_value, bool_raw_value_for_mapping, empty_raw_value, bool_enum_token, token_runes,
  bool_of_token, bool_of_class, problem_of_token, connectivity_of_token,
}
use ajax_bridge.Jeedom.Values.Polarity.{problem-connectivity_opposite}

-- A reader that takes every value for a text.
abbrev reader : Reader
reader = record {
  text = λ v. some v;
  number = λ v. none;
  boolean = λ v. none;
  numeral = λ v. none;
  parse_float = λ v. none;
  is_word_rune = λ r. true;
}

abbrev fault : Mapping
fault = binary_mapping (codes "battery_fault") (codes "Battery fault") (codes "problem")

abbrev link : Mapping
link = binary_mapping (codes "online") (codes "Online") (codes "connectivity")

ok-undecided : bool_raw_value reader (codes "OK") ≡ none
unfolding bool_raw_value empty_raw_value bool_enum_token token_runes bool_of_token eqb trim
    trim_left trim_right trim_runes is_space_rune fold_latin latin_rows upper_rune is_far_small
    is_paired_small repair_text better_text decode_cp1251_mojibake cp1251_bytes decode_runes
ok-undecided = refl

ok-fault : bool_raw_value_for_mapping reader (codes "OK") fault ≡ some false
unfolding bool_raw_value_for_mapping binary_mapping bool_of_class problem_of_token bool_raw_value
    empty_raw_value bool_enum_token token_runes bool_of_token eqb trim trim_left trim_right
    trim_runes is_space_rune fold_latin latin_rows upper_rune is_far_small is_paired_small
    repair_text better_text decode_cp1251_mojibake cp1251_bytes decode_runes
ok-fault = refl

ok-link : bool_raw_value_for_mapping reader (codes "OK") link ≡ some true
unfolding bool_raw_value_for_mapping binary_mapping bool_of_class connectivity_of_token
    bool_raw_value empty_raw_value bool_enum_token token_runes bool_of_token eqb trim trim_left
    trim_right trim_runes is_space_rune fold_latin latin_rows upper_rune is_far_small
    is_paired_small repair_text better_text decode_cp1251_mojibake cp1251_bytes decode_runes
ok-link = refl

fault-class : fault.device_class ≡ codes "problem"
unfolding binary_mapping
fault-class = refl

link-class : link.device_class ≡ codes "connectivity"
unfolding binary_mapping
link-class = refl

problem-connectivity_opposite_example : true ≡ not false
problem-connectivity_opposite_example =
    problem-connectivity_opposite reader (codes "OK") fault link false true ok-undecided fault-class
      link-class ok-fault ok-link
