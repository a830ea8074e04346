-- ===== src/NonBlock/Tests.antt =====
-- A read that would block, a text, an interrupted read, and the end of the input.
use linux_cpp.Common.{arith, zero, suc, ℕ, ◌≡◌, refl, [], ◌∷◌, pos, negsuc, codes, some}
use linux_cpp.Socket.CString.{Solid}
use linux_cpp.NonBlock.{Read, ewouldblock, eintr, read_done, echo}
use linux_cpp.NonBlock.Echo.{Answers, ends, waits, retries, gives, echo-Answers}

abbrev sample_read : ℕ → Read
sample_read zero = record { n = negsuc 0; buffer = []; errno = ewouldblock }
sample_read (suc zero) = record { n = pos 2; buffer = codes "ok"; errno = ewouldblock }
sample_read (suc (suc zero)) = record { n = negsuc 0; buffer = []; errno = eintr }
sample_read (suc (suc (suc k))) = record { n = pos 0; buffer = []; errno = eintr }

sample-Answers : Answers sample_read 4 0 (codes "ok" ∷ []) 1 read_done
unfolding Solid
sample-Answers =
    waits refl refl (
      gives refl (omega arith) refl (omega arith, (omega arith, tt))
        (retries refl refl (ends refl)))

echo-Answers_example :
    echo sample_read 4 0 ≡ some (record { texts = codes "ok" ∷ []; sleeps = 1; ending = read_done })
echo-Answers_example = echo-Answers sample_read sample-Answers
