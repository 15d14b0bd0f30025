-- ===== src/Json/Tests.antt =====
-- The reader on short texts.
use gplug_mini.Base.{◌≡◌, refl, none, some, codes}
use gplug_mini.Json.{
  number, object, no_fields, field, is_plain, is_digit, expect, read_text, after_digit, after_point,
  after_minus, go_on, walk, may_end, is_number, is_numeral, numerals, read_number, lead, behind,
  starts, separated, read_name, read_value, all_read, read_json,
}

two_members :
    read_json (codes "{\"a\":230,\"b\":-0.5}")
    ≡ some (
        object (
          field
            (codes "a")
            (number (codes "230"))
            (field (codes "b") (number (codes "-0.5")) no_fields)))
unfolding read_json read_value lead starts behind separated read_name expect read_text is_plain
    read_number is_number may_end walk numerals is_numeral is_digit go_on after_digit after_minus
    after_point all_read
two_members = refl

-- A name without a value, a comma too much, a leading zero, a text that goes on.
refused :
    (read_json (codes "{\"a\":230,\"b\":}") ≡ none)
    × (read_json (codes "{\"a\":1,}") ≡ none)
    × (read_json (codes "{\"a\":01}") ≡ none)
    × (read_json (codes "{}}") ≡ none)
unfolding read_json read_value lead starts behind separated read_name expect read_text is_plain
    read_number is_number may_end walk numerals is_numeral is_digit go_on after_digit after_minus
    after_point all_read
refused = (refl, refl, refl, refl)
