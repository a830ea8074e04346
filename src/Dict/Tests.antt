-- ===== src/Dict/Tests.antt =====
-- A dictionary of three lines, with a key that stands twice and a line without a value.
use linux_cpp.Common.{◌≡◌, refl, List, [], ◌∷◌, ◌++◌, Bytes, codes, arith, some, if◌then◌else◌}
use mathlib.Core.Option.{get_or}
use linux_cpp.Dict.{
  sep, find, find_sep, insert, entry, load_line, load_lines, not_found, translate, is_empty,
}
use linux_cpp.Dict.Parse.{entry-append}
use linux_cpp.Dict.Lookup.{first_entry, translate-load_lines}

abbrev lines : List Bytes
lines = codes "sad: a" ∷ codes "happy: " ∷ codes "sad: b" ∷ []

sad : translate (record { dict = load_lines [] lines; dict_path = [] }) (codes "sad") ≡ codes "a"
unfolding translate load_lines load_line insert find entry find_sep
sad = refl

entry-append_example :
    entry (codes "sad" ++ (sep ++ codes "x: y")) ≡ some (codes "sad", codes "x: y")
unfolding find_sep
entry-append_example =
    entry-append (codes "sad") (codes "x: y") (λ e. ground arith) (λ e. ground arith) refl

translate-load_lines_example :
    translate (record { dict = load_lines [] lines; dict_path = [] }) (codes "sad") ≡ (
      if is_empty (codes "sad")
      then not_found
      else get_or (first_entry (codes "sad") lines) not_found)
translate-load_lines_example = translate-load_lines [] (codes "sad") lines
