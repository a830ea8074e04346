-- ===== src/Task/Tests.antt =====
-- -7 / 2 and -7 % 2, and a division by zero.
use linux_cpp.Common.{
  ℕ, ◌<◌, ◌≡◌, refl, ◌+ℤ◌, ◌*ℤ◌, ◌/ℤ◌, ◌%ℤ◌, pos, negsuc, size, codes, some, arith,
}
use linux_cpp.Task.{Task, construct, run, get_result, get_task}
use linux_cpp.Task.Arithmetic.{exit_of, Stored, run-Stored}

abbrev quotient : Task
quotient = record { data1 = negsuc 6; data2 = pos 2; oper = b'/'; result = negsuc 2; exitcode = 0 }

abbrev remainder : Task
remainder = record { data1 = negsuc 6; data2 = pos 2; oper = b'%'; result = negsuc 0; exitcode = 0 }

quotient_test : run (construct (negsuc 6) (pos 2) b'/') ≡ some quotient
unfolding run construct ◌/ℤ◌
quotient_test = refl

remainder_test : run (construct (negsuc 6) (pos 2) b'%') ≡ some remainder
unfolding run construct ◌/ℤ◌ ◌%ℤ◌
remainder_test = refl

text_test : get_result quotient ≡ codes "-7/2=-3[code: 0]"
unfolding get_result linux_cpp.Common.to_string
text_test = refl

question_test : get_task quotient ≡ codes "-7/2=?"
unfolding get_task linux_cpp.Common.to_string
question_test = refl

run-Stored_example :
    Stored
      (construct (pos 9) (pos 0) b'/')
      (run (construct (pos 9) (pos 0) b'/'))
      (exit_of b'/' (pos 0))
run-Stored_example = run-Stored (pos 9) (pos 0) b'/' (omega arith) (omega arith)
