-- ===== src/ProcessPool/Stdin.antt =====
-- What a child reads.
use linux_cpp.Common.{
  ℕ, zero, suc, ◌≤◌, ◌≡◌, ◌≢◌, refl, ◌∙◌, List, [], ◌∷◌, ◌++◌, if_both, ℤ, pos, ltz, eqb_iff,
  eqb_self, some, arith,
}
use linux_cpp.ProcessPool.{
  End, read_end, write_end, Table, close_fd, lookup, dup2, Pipe, Channel, Child, World,
  close_channels, child_side, create_one, create_from, create_channel_and_sub,
}
use linux_cpp.ProcessPool.Pipes.{world}

-- No channel writes to `fd`.
Unwritten : ℤ → List Channel → Type 0
Unwritten fd [] = Unit
Unwritten fd (c ∷ channels) = (fd ≢ c.wfd) × Unwritten fd channels

lookup-close : (fd x : ℤ) (table : Table) → fd ≢ x → lookup fd (close_fd x table) ≡ lookup fd table
unfolding lookup close_fd
lookup-close fd x [] ne = refl
lookup-close fd x ((y, e) ∷ table) ne =
    ground (arith, lookup-close fd x table ne, eqb_iff y x, eqb_iff y fd)

lookup-close_channels :
    (fd : ℤ) (channels : List Channel) (table : Table)
    → Unwritten fd channels
    → lookup fd (close_channels channels table) ≡ lookup fd table
unfolding close_channels Unwritten
lookup-close_channels fd [] table u = refl
lookup-close_channels fd (c ∷ channels) table u =
    lookup-close_channels fd channels (close_fd c.wfd table) u.1 ∙ lookup-close fd c.wfd table u.0

lookup_self : (fd : ℤ) (e : End) (table : Table) → lookup fd ((fd, e) ∷ table) ≡ some e
unfolding lookup
lookup_self fd e table = ground (arith, eqb_self fd)

lookup-dup2 :
    (a b : ℤ) (e : End) (table : Table)
    → lookup a table ≡ some e
    → lookup b (dup2 a b table) ≡ some e
unfolding dup2 lookup
lookup-dup2 a b e table h = rw (h, dup2) (lookup_self b e (close_fd b table))

lookup-child_side :
    (channels : List Channel) (p : Pipe) (i : ℕ) (table : Table)
    → Unwritten p.rfd channels
    → p.rfd ≢ p.wfd
    → lookup (pos 0) (child_side channels p ((p.rfd, read_end i) ∷ (p.wfd, write_end i) ∷ table))
      ≡ some (read_end i)
unfolding child_side
lookup-child_side channels p i table u ne = lookup-dup2 p.rfd (pos 0) (read_end i) _ (
    lookup-close p.rfd p.wfd _ ne
    ∙ lookup-close_channels p.rfd channels _ u
    ∙ lookup_self p.rfd (read_end i) ((p.wfd, write_end i) ∷ table))

-- Each child has the read end of its own pipe as descriptor 0.
pub Fed : List Child → Type 0
Fed [] = Unit
Fed (c ∷ children) = (lookup (pos 0) c.table ≡ some (read_end c.index)) × Fed children

Unwritten-append :
    (fd : ℤ) (channels : List Channel) (channel : Channel)
    → Unwritten fd channels
    → fd ≢ channel.wfd
    → Unwritten fd (channels ++ channel ∷ [])
unfolding Unwritten
Unwritten-append fd [] channel u ne = (ne, tt)
Unwritten-append fd (c ∷ channels) channel u ne = (u.0, Unwritten-append fd channels channel u.1 ne)

module _ (pipe : ℕ → Pipe) (fork : ℕ → ℤ)
    (fresh : (i j : ℕ) → j ≤ i → (pipe i).rfd ≢ (pipe j).wfd) where
  -- At the start of turn `i`.
  record Ready (i : ℕ) (w : World) : Type 0 where
    unwritten : (k : ℕ) → i ≤ k → Unwritten (pipe k).rfd w.channels
    fed : Fed w.children

  create_one-Ready :
      (i : ℕ) (w : World) → Ready i w → Ready (suc i) (create_one i (pipe i) (fork i) w)
  unfolding create_one Fed
  create_one-Ready i w v = record {
    unwritten = λ k h.
        Unwritten-append (pipe k).rfd w.channels _ (v.unwritten k (omega arith))
          (fresh k i (omega arith));
    fed = if_both Fed (ltz (fork i) (pos 0)) v.fed (
      lookup-child_side w.channels (pipe i) i w.table (v.unwritten i (omega arith))
          (fresh i i (omega arith)),
      v.fed,
    );
  }

  create_from-Fed :
      (rounds i : ℕ) (w : World)
      → Ready i w
      → Fed (world (create_from pipe fork rounds i w)).children
  unfolding create_from
  create_from-Fed zero i w v = v.fed
  create_from-Fed (suc rounds) i w v =
      if_both (λ r. Fed (world r).children) (ltz (pipe i).ret (pos 0)) v.fed
        (create_from-Fed rounds (suc i) (create_one i (pipe i) (fork i) w) (create_one-Ready i w v))

-- When no pipe gets as its read end a number that is a write end of it or of an earlier pipe (the
-- parent keeps those open), then every child calls `task` with the read end of its own pipe as
-- descriptor 0, for any number of children, whatever fork answers and also when pipe fails.
pub create_channel_and_sub-Fed :
    (pipe : ℕ → Pipe) (fork : ℕ → ℤ)
    → ((i j : ℕ) → j ≤ i → (pipe i).rfd ≢ (pipe j).wfd)
    → (num : ℕ) → Fed (world (create_channel_and_sub pipe fork num)).children
unfolding create_channel_and_sub Fed Unwritten
create_channel_and_sub-Fed pipe fork fresh num =
    create_from-Fed pipe fork fresh num 0 (record { table = []; channels = []; children = [] })
      (record { unwritten = λ k h. tt; fed = tt })
