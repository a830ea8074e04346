-- ===== src/TestPipe/Tests.antt =====
-- A child that writes one message, of which the father reads the beginning.
use linux_cpp.Common.{◌≡◌, refl, [], ◌∷◌, codes, to_string, arith}
use linux_cpp.Socket.{c_string}
use linux_cpp.TestPipe.{
  State, sigpipe, report, reported, info, get_other_message, write_message, father_process_read,
  child_closes, father_closes, writes, breaks, reads, closes, waits, Reach, begins, later,
}
use linux_cpp.TestPipe.Stream.{Piped, Reach-Piped}

one_read : (s : State) × Reach 42 65536 s
unfolding write_message father_process_read info get_other_message to_string report
one_read = (
  _,
  later
      (later
        (later
          (later
            (later (later (later begins (child_closes refl)) (father_closes refl))
              (writes refl refl (omega arith)))
            (reads 6 refl (omega arith) (omega arith) (omega arith)))
          (closes refl))
        (breaks refl refl))
      (waits refl refl),
)

Reach-Piped_example : Piped 42 one_read.0
Reach-Piped_example = Reach-Piped one_read.1

one_read_test :
    (one_read.0.printed ≡ codes "Father" ∷ []) × (one_read.0.father ≡ reported sigpipe 0)
unfolding one_read c_string
one_read_test = (refl, refl)
