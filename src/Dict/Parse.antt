-- ===== src/Dict/Parse.antt =====
-- A line of the dictionary's file and the pair that it stands for.
use Prim.Native.Nat.add
use linux_cpp.Common.{
  ℕ, ◌+◌, ◌≡◌, ◌≢◌, refl, [], ◌∷◌, ◌++◌, Bytes, take, drop, none, some, arith, length, ap,
}
use linux_cpp.Dict.{sep, find_sep, entry}

find_sep-append :
    (key value : Bytes) → find_sep key ≡ none → find_sep (key ++ (sep ++ value)) ≡ some (length key)
unfolding find_sep
find_sep-append [] value h = refl
find_sep-append (a ∷ []) value h = ground (arith, find_sep-append [] value refl)
find_sep-append (a ∷ b ∷ key) value h = ground (arith, find_sep-append (b ∷ key) value)

take-length : (xs ys : Bytes) → take (length xs) (xs ++ ys) ≡ xs
take-length [] ys = refl
take-length (x ∷ xs) ys = ap (λ l. x ∷ l) (take-length xs ys)

drop-length : (xs ys : Bytes) (n : ℕ) → drop (length xs + n) (xs ++ ys) ≡ drop n ys
drop-length [] ys n = rw (add.zero n)
drop-length (x ∷ xs) ys n = rw (add.suc (length xs) n) (drop-length xs ys n)

-- A line `key: value` stands for the pair of its key and value, when neither is empty and the key
-- does not itself hold the separator. The value may hold it.
pub entry-append :
    (key value : Bytes)
    → key ≢ []
    → value ≢ []
    → find_sep key ≡ none
    → entry (key ++ (sep ++ value)) ≡ some (key, value)
unfolding entry
entry-append [] value nonempty h e = absurd (nonempty refl)
entry-append (a ∷ key) [] k nonempty e = absurd (nonempty refl)
entry-append (a ∷ key) (b ∷ value) k v e = ground (
  arith,
  find_sep-append (a ∷ key) (b ∷ value) e,
  take-length key (sep ++ b ∷ value),
  drop-length (a ∷ key) (sep ++ b ∷ value) 2,
)
