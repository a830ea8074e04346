-- ===== src/Task/Arithmetic.antt =====
-- What `run` computes, and when it is defined.
use linux_cpp.Common.{
  ℕ, zero, suc, ◌+◌, ◌*◌, ◌/◌, ◌%◌, ◌≤◌, ◌<◌, ◌≡◌, refl, ap, ◌∙◌, Bool, true, false, if◌then◌else◌,
  Bool-cases, inl, inr, ◌==◌, ℤ, pos, negsuc, eqb, ◌+ℤ◌, ◌-ℤ◌, ◌*ℤ◌, ◌/ℤ◌, ◌%ℤ◌, fits, size, Option,
  none, some, arith,
}
use native.Mathlib.Nat.{div-add-mod', mod-lt, div-le_self, mul-zero, zero-mul}
use linux_cpp.Task.{Task, construct, run, divide, modulo, store, div_zero, mod_zero, unknown}

-- The quotient and the remainder of numbers that are not negative.
parts : (a b : ℕ) → 0 < b → (a / b * b + a % b ≡ a) × (a % b < b)
parts a b h = (div-add-mod' a b, mod-lt a h)

-- The quotient and the remainder of C++: towards zero.
div_mod : (x y : ℤ) → eqb y (pos 0) ≡ false → (x /ℤ y *ℤ y +ℤ x %ℤ y ≡ x) × (size (x %ℤ y) < size y)
unfolding ◌/ℤ◌ ◌%ℤ◌ ◌*ℤ◌ ◌+ℤ◌
div_mod (pos a) (pos zero) h = absurd (ground (arith, h))
div_mod (pos a) (pos (suc b)) h = ground (arith, parts a (suc b))
div_mod (pos a) (negsuc b) h = ground (arith, parts a (suc b))
div_mod (negsuc a) (pos zero) h = absurd (ground (arith, h))
div_mod (negsuc a) (pos (suc b)) h = ground (arith, parts (suc a) (suc b))
div_mod (negsuc a) (negsuc b) h = ground (arith, parts (suc a) (suc b))

size-quotient : (x y : ℤ) → size (x /ℤ y) ≤ size x
unfolding ◌/ℤ◌
size-quotient (pos a) (pos b) = div-le_self a b
size-quotient (pos a) (negsuc b) = ground (arith, div-le_self a (suc b))
size-quotient (negsuc a) (pos b) = ground (arith, div-le_self (suc a) b)
size-quotient (negsuc a) (negsuc b) = div-le_self (suc a) (suc b)

size-add : (x y : ℤ) → size (x +ℤ y) ≤ size x + size y
unfolding ◌+ℤ◌
size-add x y = ground arith

size-sub : (x y : ℤ) → size (x -ℤ y) ≤ size x + size y
unfolding ◌-ℤ◌
size-sub x y = ground arith

size-mul : (x y : ℤ) → size (x *ℤ y) ≤ size x * size y
unfolding ◌*ℤ◌
size-mul (pos a) (pos b) = ground (arith, mul-zero a, zero-mul b)
size-mul (pos a) (negsuc b) = ground (arith, mul-zero a, zero-mul (suc b))
size-mul (negsuc a) (pos b) = ground (arith, mul-zero (suc a), zero-mul b)
size-mul (negsuc a) (negsuc b) = ground (arith, mul-zero (suc a), zero-mul (suc b))

fits_of_size : (z : ℤ) → size z < 0x8000_0000 → fits z ≡ true
fits_of_size (pos n) h = ground arith
fits_of_size (negsuc n) h = ground arith

-- The product of two operands of main's size and far beyond fits.
square : (a b : ℕ) → a ≤ 46340 → b ≤ 46340 → a * b < 0x8000_0000
square a b h k = grind arith

-- Which exit code a task ends with, by its operator and second operand.
abbrev pub exit_of : ℕ → ℤ → ℕ
exit_of op y =
    if op == b'+'
    then 0
    else if op == b'-'
    then 0
    else if op == b'*'
    then 0
    else if op == b'/'
    then (if eqb y (pos 0) then div_zero else 0)
    else if op == b'%'
    then (if eqb y (pos 0) then mod_zero else 0)
    else unknown

-- A value that fits is stored, and the rest of the task stays.
pub record Stored (t : Task) (o : Option Task) (code : ℕ) : Type 0 where
  pub ran : Task
  pub defined : o ≡ some ran
  pub kept : (ran.data1 ≡ t.data1) × (ran.data2 ≡ t.data2) × (ran.oper ≡ t.oper)
  pub in_range : fits ran.result ≡ true
  pub code_is : ran.exitcode ≡ code

store-Stored : (t : Task) (z : ℤ) → t.exitcode ≡ 0 → size z < 0x8000_0000 → Stored t (store t z) 0
store-Stored t z e h = record {
  ran = record t { result = z };
  defined = rw (fits_of_size z h);
  kept = (refl, refl, refl);
  in_range = fits_of_size z h;
  code_is = e;
}

if_Stored :
    (t : Task) (b : Bool) {o o' : Option Task} {c c' : ℕ}
    → (b ≡ true → Stored t o c)
    → (b ≡ false → Stored t o' c')
    → Stored t (if b then o else o') (if b then c else c')
if_Stored t true h k = h refl
if_Stored t false h k = k refl

module _ (x y : ℤ) (op : ℕ) (hx : size x ≤ 46340) (hy : size y ≤ 46340) where
  divide-Stored :
      Stored (construct x y op) (divide (construct x y op)) (if eqb y (pos 0) then div_zero else 0)
  unfolding divide construct
  divide-Stored =
      if_Stored (construct x y op) (eqb y (pos 0))
        (λ z. record {
          ran = record (construct x y op) { exitcode = div_zero };
          defined = refl;
          kept = (refl, refl, refl);
          in_range = refl;
          code_is = refl;
        })
        (λ z. store-Stored (construct x y op) (x /ℤ y) refl (omega (arith, size-quotient x y)))

  modulo-Stored :
      Stored (construct x y op) (modulo (construct x y op)) (if eqb y (pos 0) then mod_zero else 0)
  unfolding modulo construct
  modulo-Stored =
      if_Stored (construct x y op) (eqb y (pos 0))
        (λ z. record {
          ran = record (construct x y op) { exitcode = mod_zero };
          defined = refl;
          kept = (refl, refl, refl);
          in_range = refl;
          code_is = refl;
        })
        (λ z.
          rw (fits_of_size (x /ℤ y) (omega (arith, size-quotient x y)))
            (store-Stored (construct x y op) (x %ℤ y) refl (omega (arith, (div_mod x y z).1))))

  -- For operands of at most 46340 in absolute value, whatever the operator, `run` is defined: no int
  -- overflows and nothing is divided by zero. The operands and the operator stay, the result fits an
  -- int, and the exit code is 1 for a division by zero, 2 for a remainder by zero, 3 for an operator
  -- that is none of the five, and else 0.
  pub run-Stored : Stored (construct x y op) (run (construct x y op)) (exit_of op y)
  unfolding run construct
  run-Stored =
      let t = construct x y op in
      if_Stored t (op == b'+') (λ e. store-Stored t (x +ℤ y) refl (omega (arith, size-add x y)))
        (λ e.
          if_Stored t (op == b'-') (λ e. store-Stored t (x -ℤ y) refl (omega (arith, size-sub x y)))
            (λ e.
              if_Stored t (op == b'*')
                (λ e.
                  store-Stored t (x *ℤ y) refl
                    (omega (arith, size-mul x y, square (size x) (size y) hx hy)))
                (λ e.
                  if_Stored t (op == b'/') (λ e. divide-Stored)
                    (λ e.
                      if_Stored t (op == b'%') (λ e. modulo-Stored)
                        (λ e. record {
                          ran = record t { exitcode = unknown };
                          defined = refl;
                          kept = (refl, refl, refl);
                          in_range = refl;
                          code_is = refl;
                        })))))

store-result :
    (t : Task) (z : ℤ) (r : Task) → store t z ≡ some r → (r.result ≡ z) × (r.exitcode ≡ t.exitcode)
store-result t z r e = ground (arith, e)

divide-result :
    (x y : ℤ) (op : ℕ) (q : Task)
    → eqb y (pos 0) ≡ false
    → divide (construct x y op) ≡ some q
    → (q.result ≡ x /ℤ y) × (q.exitcode ≡ 0)
unfolding divide construct
divide-result x y op q h e = store-result (construct x y op) (x /ℤ y) q (rw h at e)

modulo-result :
    (x y : ℤ) (op : ℕ) (r : Task)
    → eqb y (pos 0) ≡ false
    → modulo (construct x y op) ≡ some r
    → (r.result ≡ x %ℤ y) × (r.exitcode ≡ 0)
unfolding modulo construct
modulo-result x y op r h e = elim (Bool-cases (fits (x /ℤ y))) [
  | inl f ↦ store-result (construct x y op) (x %ℤ y) r (rw (h, f) at e)
  | inr f ↦ absurd (let n : none ≡ some r = rw (h, f) at e in ground (arith, n))
]

-- Where a task with `/` and one with `%` on the same operands are run, the second not zero, and both
-- runs are defined: quotient times divisor plus remainder is the dividend, the remainder is smaller
-- than the divisor in absolute value, and both exit codes are 0.
pub run_division :
    (x y : ℤ) (q r : Task)
    → eqb y (pos 0) ≡ false
    → run (construct x y b'/') ≡ some q
    → run (construct x y b'%') ≡ some r
    → (q.result *ℤ y +ℤ r.result ≡ x)
      × (size r.result < size y)
      × (q.exitcode ≡ 0)
      × (r.exitcode ≡ 0)
unfolding run construct
run_division x y q r h e f =
    let quotient = divide-result x y b'/' q h e in
    let remainder = modulo-result x y b'%' r h f in
    (
      ap (λ z. z *ℤ y +ℤ r.result) quotient.0
          ∙ ap (λ z. x /ℤ y *ℤ y +ℤ z) remainder.0
          ∙ (div_mod x y h).0,
      rw remainder.0 (div_mod x y h).1,
      quotient.1,
      remainder.1,
    )
