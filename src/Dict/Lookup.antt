-- ===== src/Dict/Lookup.antt =====
-- What a dictionary that was loaded translates to.
use linux_cpp.Common.{
  ◌≡◌, refl, List, [], ◌∷◌, Bytes, bytes_eq, bytes_eq_iff, Option, none, some, arith, if◌then◌else◌,
  Option-cases, inl, inr, ◌⊎◌, if_both, subst, sym,
}
use mathlib.Core.Option.{get_or}
use linux_cpp.Dict.{Map, find, insert, entry, load_line, load_lines, not_found, translate, is_empty}

-- The value of the first line whose key is `word`.
pub first_entry : Bytes → List Bytes → Option Bytes
first_entry word [] = none
first_entry word (line ∷ lines) = elim (entry line) [
  | none ↦ first_entry word lines
  | some (key, value) ↦ if bytes_eq key word then some value else first_entry word lines
]

abbrev or_else : Option Bytes → Option Bytes → Option Bytes
or_else (some v) o = some v
or_else none o = o

find-insert :
    (key value word : Bytes) (m : Map)
    → find word (insert key value m)
      ≡ or_else (find word m) (if bytes_eq key word then some value else none)
unfolding insert find
find-insert key value word m = elim (Option-cases (find key m)) [
  | inl e ↦ ground (arith, e, bytes_eq_iff key word)
  | inr (v, e) ↦ ground (arith, e, bytes_eq_iff key word)
]

find-load_lines :
    (word : Bytes) (m : Map) (lines : List Bytes)
    → find word (load_lines m lines) ≡ or_else (find word m) (first_entry word lines)
unfolding load_lines load_line first_entry find insert
find-load_lines word m [] = ground arith
find-load_lines word m (line ∷ lines) = elim (Option-cases (entry line)) [
  | inl e ↦ ground (arith, e, find-load_lines word m lines)
  | inr ((key, value), e) ↦
      ground
        (arith, e, find-load_lines word (insert key value m) lines, find-insert key value word m)
]

-- A dictionary that was loaded from some lines translates a word to the value of the first line
-- whose key is the word, and the empty word and a word with no line to "None".
pub translate-load_lines :
    (path word : Bytes) (lines : List Bytes)
    → translate (record { dict = load_lines [] lines; dict_path = path }) word
      ≡ (if is_empty word then not_found else get_or (first_entry word lines) not_found)
unfolding translate find
translate-load_lines path [] lines = refl
translate-load_lines path (a ∷ word) lines = ground (arith, find-load_lines (a ∷ word) [] lines)

-- "None", or the value of some line.
unfoldable pub Value : List Bytes → Bytes → Type 0
Value [] text = text ≡ not_found
Value (line ∷ lines) text = ((key : Bytes) × (entry line ≡ some (key, text))) ⊎ Value lines text

not_found-Value : (lines : List Bytes) → Value lines not_found
unfolding Value
not_found-Value [] = refl
not_found-Value (line ∷ lines) = inr (not_found-Value lines)

first_entry-none :
    (word line : Bytes) (lines : List Bytes)
    → entry line ≡ none
    → first_entry word (line ∷ lines) ≡ first_entry word lines
unfolding first_entry
first_entry-none word line lines e = ground (arith, e)

first_entry-some :
    (word line key value : Bytes) (lines : List Bytes)
    → entry line ≡ some (key, value)
    → first_entry word (line ∷ lines)
      ≡ (if bytes_eq key word then some value else first_entry word lines)
unfolding first_entry
first_entry-some word line key value lines e = ground (arith, e)

first_entry-Value :
    (word : Bytes) (lines : List Bytes) → Value lines (get_or (first_entry word lines) not_found)
unfolding Value first_entry
first_entry-Value word [] = not_found-Value []
first_entry-Value word (line ∷ lines) = elim (Option-cases (entry line)) [
  | inl e ↦ rw (first_entry-none word line lines e) (inr (first_entry-Value word lines))
  | inr ((key, value), e) ↦ rw (first_entry-some word line key value lines e) (
      if_both (λ (o : Option Bytes). Value (line ∷ lines) (get_or o not_found)) (bytes_eq key word)
        (inl (key, e)) (inr (first_entry-Value word lines)))
]

pub translate-Value :
    (path : Bytes) (lines : List Bytes) (word : Bytes)
    → Value lines (translate (record { dict = load_lines [] lines; dict_path = path }) word)
unfolding Value
translate-Value path lines word =
    subst (Value lines) (sym (translate-load_lines path word lines))
      (if_both (Value lines) (is_empty word) (not_found-Value lines) (first_entry-Value word lines))
