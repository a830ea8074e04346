-- ===== src/Dict.antt =====
-- Socket/2. dict_server/Dict.hpp: `Dict`, the dictionary of the UDP dictionary server. The file is
-- read as the lines that std::getline gives, or cannot be opened.
pub mod Parse
pub mod Lookup
mod Tests
use linux_cpp.Common.{
  ℕ, zero, suc, ◌+◌, List, [], ◌∷◌, Bool, true, false, if◌then◌else◌, ◌&&◌, ◌==◌, Bytes, codes,
  bytes_eq, take, drop, Option, none, some,
}
use linux_cpp.Os.{Trace}
use linux_cpp.Socket.{Outcome, done, exited}

-- `sep`, ": "
abbrev pub sep : Bytes
sep = b':' ∷ b' ' ∷ []

-- std::unordered_map: the pairs, and the lookup by key.
abbrev pub Map : Type 0
Map = List (Bytes × Bytes)

pub find : Bytes → Map → Option Bytes
find key [] = none
find key ((k, v) ∷ m) = if bytes_eq k key then some v else find key m

-- `insert` leaves a key alone that is there.
pub insert : Bytes → Bytes → Map → Map
insert key value m = elim (find key m) [ none ↦ (key, value) ∷ m | some v ↦ m ]

pub record Dict : Type 0 where
  pub dict : Map
  pub dict_path : Bytes

abbrev pub is_empty : Bytes → Bool
is_empty [] = true
is_empty (a ∷ s) = false

-- `line.find(sep)`
pub find_sep : Bytes → Option ℕ
find_sep [] = none
find_sep (a ∷ line) =
    let rest : Option ℕ = elim (find_sep line) [ none ↦ none | some pos ↦ some (suc pos) ] in
    elim line [ [] ↦ none | b ∷ more ↦ if (a == b':') && (b == b' ') then some 0 else rest ]

-- One turn of the loop of `LoadDict`: the pair of the line, or `continue`.
pub entry : Bytes → Option (Bytes × Bytes)
entry line = if is_empty line then none else elim (find_sep line) [
  | none ↦ none
  | some pos ↦
      if is_empty (take pos line)
      then none
      else if is_empty (drop (pos + 2) line)
      then none
      else some (take pos line, drop (pos + 2) line)
]

pub load_line : Map → Bytes → Map
load_line m line = elim (entry line) [ none ↦ m | some (key, value) ↦ insert key value m ]

pub load_lines : Map → List Bytes → Map
load_lines m [] = m
load_lines m (line ∷ lines) = load_lines (load_line m line) lines

-- `LoadDict` by the constructor: the process ends with status 1 when the file cannot be opened.
pub construct : Bytes → Option (List Bytes) → Trace → Outcome Dict
construct path none t = exited 1 t
construct path (some lines) t = done (record { dict = load_lines [] lines; dict_path = path }) t

abbrev pub not_found : Bytes
not_found = codes "None"

pub translate : Dict → Bytes → Bytes
translate d [] = not_found
translate d (a ∷ word) = elim (find (a ∷ word) d.dict) [ none ↦ not_found | some v ↦ v ]
