-- ===== src/NamedPipe/Tests.antt =====
-- A client that sends two lines, which arrive in three pieces.
use linux_cpp.Common.{
  ℕ, ◌≡◌, refl, List, [], ◌∷◌, Bytes, pos, negsuc, codes, some, arith, zero, suc,
}
use linux_cpp.Os.{Received}
use linux_cpp.Socket.CString.{Solid}
use linux_cpp.NamedPipe.{
  Served, client_quit, server_main, client_writes, closed, opened, unlinked, made, read_mode,
}
use linux_cpp.NamedPipe.Stream.{Delivers, ends, gives, some_full, server_main-client_writes}

abbrev sample_read : ℕ → Received
sample_read zero = record { n = pos 1; buffer = codes "h" }
sample_read (suc zero) = record { n = pos 2; buffer = codes "iy" }
sample_read (suc (suc zero)) = record { n = pos 2; buffer = codes "ouxx" }
sample_read (suc (suc (suc k))) = record { n = pos 0; buffer = [] }

abbrev pieces : List Bytes
pieces = codes "h" ∷ codes "iy" ∷ codes "ou" ∷ []

sample-Delivers : Delivers sample_read 9 0 pieces
unfolding Solid
sample-Delivers =
    gives refl (omega arith) (omega arith) refl (omega arith, tt)
      (gives refl (omega arith) (omega arith) refl (omega arith, (omega arith, tt))
        (gives refl (omega arith) (omega arith) refl (omega arith, (omega arith, tt)) (ends refl)))

server_main-client_writes_example :
    (s : Served) × ((server_main (negsuc 0) (pos 3) sample_read 9).0 ≡ some s)
    × (s.ending ≡ client_quit)
    × (client_writes s.said ≡ client_writes (codes "hi" ∷ codes "you" ∷ []))
    × (s.fault ≡ some_full pieces)
    × ((server_main (negsuc 0) (pos 3) sample_read 9).1
        ≡ closed (pos 3) ∷ unlinked ∷ opened read_mode (pos 3) ∷ made (negsuc 0) ∷ [])
unfolding client_writes
server_main-client_writes_example =
    server_main-client_writes (negsuc 0) (pos 3) sample_read 9 pieces
      (codes "hi" ∷ codes "you" ∷ []) refl sample-Delivers refl
