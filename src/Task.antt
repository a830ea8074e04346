-- ===== src/Task.antt =====
-- Thread_Pool/Task.hpp (the same file stands at the root): `Task`, the arithmetic task of the
-- teaching thread pool. int has 32 bits; where its arithmetic is undefined in C++ (a result that
-- does not fit, the quotient of the least int by -1), `run` gives `none`.
pub mod Arithmetic
mod Tests
use linux_cpp.Common.{
  ℕ, List, [], ◌∷◌, ◌++◌, Bool, true, false, if◌then◌else◌, ◌==◌, ℤ, pos, negsuc, suc, eqb, ◌+ℤ◌,
  ◌-ℤ◌, ◌*ℤ◌, ◌/ℤ◌, ◌%ℤ◌, fits, Bytes, codes, to_string, Option, none, some,
}

abbrev pub opers : Bytes
opers = codes "+-*/%"

abbrev pub div_zero : ℕ
div_zero = 1

abbrev pub mod_zero : ℕ
mod_zero = 2

abbrev pub unknown : ℕ
unknown = 3

pub record Task : Type 0 where
  pub data1 : ℤ
  pub data2 : ℤ
  pub oper : ℕ
  pub result : ℤ
  pub exitcode : ℕ

unfoldable pub construct : ℤ → ℤ → ℕ → Task
construct x y op = record { data1 = x; data2 = y; oper = op; result = pos 0; exitcode = 0 }

-- `result_ = z`, where `z` is computed as an int.
abbrev pub store : Task → ℤ → Option Task
store t z = if fits z then some (record t { result = z }) else none

-- Each case of `run` as far as `break`.
unfoldable pub divide : Task → Option Task
divide t =
    if eqb t.data2 (pos 0)
    then some (record t { exitcode = div_zero })
    else store t (t.data1 /ℤ t.data2)

unfoldable pub modulo : Task → Option Task
modulo t =
    if eqb t.data2 (pos 0)
    then some (record t { exitcode = mod_zero })
    else if fits (t.data1 /ℤ t.data2)
    then store t (t.data1 %ℤ t.data2)
    else none

unfoldable pub run : Task → Option Task
unfolding divide modulo
run t =
    if t.oper == b'+'
    then store t (t.data1 +ℤ t.data2)
    else if t.oper == b'-'
    then store t (t.data1 -ℤ t.data2)
    else if t.oper == b'*'
    then store t (t.data1 *ℤ t.data2)
    else if t.oper == b'/'
    then divide t
    else if t.oper == b'%'
    then modulo t
    else some (record t { exitcode = unknown })

-- `std::to_string` of an int
unfoldable pub int_to_string : ℤ → Bytes
int_to_string (pos n) = to_string n
int_to_string (negsuc n) = b'-' ∷ to_string (suc n)

unfoldable pub get_result : Task → Bytes
unfolding int_to_string
get_result t =
    int_to_string t.data1
    ++ (t.oper ∷ [])
    ++ int_to_string t.data2
    ++ codes "="
    ++ int_to_string t.result
    ++ codes "[code: "
    ++ to_string t.exitcode
    ++ codes "]"

unfoldable pub get_task : Task → Bytes
unfolding int_to_string
get_task t = int_to_string t.data1 ++ (t.oper ∷ []) ++ int_to_string t.data2 ++ codes "=?"
