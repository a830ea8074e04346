-- ===== src/ProcessPool/Pipes.antt =====
-- Which ends of the pipes the parent and the children hold.
use linux_cpp.Common.{
  ℕ, zero, suc, ◌≤◌, ◌≡◌, inl, inr, refl, sym, ◌∙◌, ap, List, [], ◌∷◌, ◌++◌, ℤ, pos, ltz, eqb,
  eqb_self, some, arith, Option-cases, if_both,
}
use linux_cpp.ProcessPool.{
  End, read_end, write_end, Table, close_fd, lookup, dup2, Pipe, Channel, Child, World, Result,
  made, exited, close_channels, child_side, create_one, create_from, create_channel_and_sub,
  clean_up_channel,
}

-- How many write ends a process holds.
unfoldable pub write_ends : Table → ℕ
write_ends [] = 0
write_ends ((x, read_end i) ∷ table) = write_ends table
write_ends ((x, write_end i) ∷ table) = suc (write_ends table)

write_ends-close : (fd : ℤ) (table : Table) → write_ends (close_fd fd table) ≤ write_ends table
unfolding write_ends close_fd
write_ends-close fd [] = omega arith
write_ends-close fd ((x, read_end i) ∷ table) = ground (arith, write_ends-close fd table)
write_ends-close fd ((x, write_end i) ∷ table) = ground (arith, write_ends-close fd table)

close_comm :
    (a b : ℤ) (table : Table) → close_fd a (close_fd b table) ≡ close_fd b (close_fd a table)
unfolding close_fd
close_comm a b [] = refl
close_comm a b ((x, e) ∷ table) = ground (arith, close_comm a b table)

close_channels_comm :
    (channels : List Channel) (fd : ℤ) (table : Table)
    → close_channels channels (close_fd fd table) ≡ close_fd fd (close_channels channels table)
unfolding close_channels
close_channels_comm [] fd table = refl
close_channels_comm (c ∷ channels) fd table =
    ap (close_channels channels) (close_comm c.wfd fd table)
    ∙ close_channels_comm channels fd (close_fd c.wfd table)

close_channels-append :
    (xs ys : List Channel) (table : Table)
    → close_channels (xs ++ ys) table ≡ close_channels ys (close_channels xs table)
unfolding close_channels
close_channels-append [] ys table = refl
close_channels-append (c ∷ xs) ys table = close_channels-append xs ys (close_fd c.wfd table)

close_channels-read :
    (channels : List Channel) (r : ℤ) (i : ℕ) (table : Table)
    → write_ends (close_channels channels ((r, read_end i) ∷ table))
      ≡ write_ends (close_channels channels table)
unfolding write_ends close_fd close_channels
close_channels-read [] r i table = refl
close_channels-read (c ∷ channels) r i table =
    if_both
      (λ (t : Table).
        write_ends (close_channels channels t)
        ≡ write_ends (close_channels channels (close_fd c.wfd table)))
      (eqb r c.wfd) refl (close_channels-read channels r i (close_fd c.wfd table))

close-own : (fd : ℤ) (e : End) (table : Table) → close_fd fd ((fd, e) ∷ table) ≡ close_fd fd table
unfolding close_fd
close-own fd e table = ground (arith, eqb_self fd)

close-read :
    (channels : List Channel) (fd r : ℤ) (i : ℕ) (table : Table)
    → write_ends (close_channels channels (close_fd fd ((r, read_end i) ∷ table)))
      ≡ write_ends (close_channels channels (close_fd fd table))
unfolding close_fd
close-read channels fd r i table =
    if_both
      (λ (t : Table).
        write_ends (close_channels channels t)
        ≡ write_ends (close_channels channels (close_fd fd table)))
      (eqb r fd) refl (close_channels-read channels r i (close_fd fd table))

le-zero : (a b : ℕ) → a ≤ b → b ≡ 0 → a ≡ 0
le-zero a b h e = omega arith

-- A new pipe whose write end is closed adds no write end.
close-pipe :
    (r w : ℤ) (i : ℕ) (channels : List Channel) (table : Table)
    → write_ends (close_channels channels table) ≡ 0
    → write_ends (close_fd w (close_channels channels ((r, read_end i) ∷ (w, write_end i) ∷ table)))
      ≡ 0
close-pipe r w i channels table h =
    ap write_ends
      (sym (close_channels_comm channels w ((r, read_end i) ∷ (w, write_end i) ∷ table)))
    ∙ close-read channels w r i ((w, write_end i) ∷ table)
    ∙ ap (λ t. write_ends (close_channels channels t)) (close-own w (write_end i) table)
    ∙ ap write_ends (close_channels_comm channels w table)
    ∙ le-zero _ _ (write_ends-close w (close_channels channels table)) h

lookup-read :
    (fd : ℤ) (table : Table) (e : End)
    → write_ends table ≡ 0
    → lookup fd table ≡ some e
    → write_ends ((fd, e) ∷ []) ≡ 0
unfolding write_ends lookup
lookup-read fd [] e h l = ground arith
lookup-read fd ((x, read_end i) ∷ table) e h l = ground (arith, lookup-read fd table e h)
lookup-read fd ((x, write_end i) ∷ table) e h l = absurd (ground arith)

add_end :
    (fd fd' : ℤ) (e : End) (table : Table)
    → write_ends ((fd, e) ∷ []) ≡ 0
    → write_ends table ≡ 0
    → write_ends ((fd', e) ∷ table) ≡ 0
unfolding write_ends
add_end fd fd' (read_end i) table h k = k
add_end fd fd' (write_end i) table h k = absurd (ground arith)

dup2-write_ends : (a b : ℤ) (table : Table) → write_ends table ≡ 0 → write_ends (dup2 a b table) ≡ 0
unfolding dup2
dup2-write_ends a b table h = elim (Option-cases (lookup a table)) [
  | inl e ↦ rw (e, dup2) h
  | inr (x, e) ↦
      rw (e, dup2)
        (add_end a b x (close_fd b table) (lookup-read a table x h e)
          (le-zero _ _ (write_ends-close b table) h))
]

-- No child holds a write end.
pub Deaf : List Child → Type 0
Deaf [] = Unit
Deaf (c ∷ children) = (write_ends c.table ≡ 0) × Deaf children

pub record Closable (w : World) : Type 0 where
  pub parent : write_ends (close_channels w.channels w.table) ≡ 0
  pub others : Deaf w.children

create_one-parent :
    (p : Pipe) (i : ℕ) (channel : Channel) (channels : List Channel) (table : Table)
    → channel.wfd ≡ p.wfd
    → write_ends (close_channels channels table) ≡ 0
    → write_ends (
        close_channels
          (channels ++ channel ∷ [])
          (close_fd p.rfd ((p.rfd, read_end i) ∷ (p.wfd, write_end i) ∷ table)))
      ≡ 0
unfolding close_channels
create_one-parent p i channel channels table e h =
    let both : Table = (p.rfd, read_end i) ∷ (p.wfd, write_end i) ∷ table in
    let closed : Table = close_channels channels both in
    ap write_ends (
      close_channels-append channels (channel ∷ []) (close_fd p.rfd both)
      ∙ ap (close_fd channel.wfd) (close_channels_comm channels p.rfd both)
      ∙ ap (λ fd. close_fd fd (close_fd p.rfd closed)) e
      ∙ close_comm p.wfd p.rfd closed)
    ∙ le-zero _ _ (write_ends-close p.rfd (close_fd p.wfd closed))
        (close-pipe p.rfd p.wfd i channels table h)

create_one-Closable :
    (i : ℕ) (p : Pipe) (id : ℤ) (w : World) → Closable w → Closable (create_one i p id w)
unfolding create_one child_side Deaf
create_one-Closable i p id w v = record {
  parent = create_one-parent p i _ w.channels w.table refl v.parent;
  others = if_both Deaf (ltz id (pos 0)) v.others (
    dup2-write_ends p.rfd (pos 0) _ (close-pipe p.rfd p.wfd i w.channels w.table v.parent),
    v.others,
  );
}

abbrev pub world : Result → World
world (made w) = w
world (exited status w) = w

create_from-Closable :
    (pipe : ℕ → Pipe) (fork : ℕ → ℤ) (rounds i : ℕ) (w : World)
    → Closable w
    → Closable (world (create_from pipe fork rounds i w))
unfolding create_from
create_from-Closable pipe fork zero i w v = v
create_from-Closable pipe fork (suc rounds) i w v =
    if_both (λ r. Closable (world r)) (ltz (pipe i).ret (pos 0)) v
      (create_from-Closable pipe fork rounds (suc i) (create_one i (pipe i) (fork i) w)
        (create_one-Closable i (pipe i) (fork i) w v))

-- Whatever descriptors pipe gives out and whatever fork answers, for any number of children and
-- also when pipe fails: no child holds the write end of any pipe, and after `CleanUpChannel` the
-- parent holds none either, so that every child comes to the end of its pipe.
pub create_channel_and_sub-Deaf :
    (pipe : ℕ → Pipe) (fork : ℕ → ℤ) (num : ℕ)
    → let w = world (create_channel_and_sub pipe fork num) in
      Deaf w.children × (write_ends (clean_up_channel w).table ≡ 0)
unfolding create_channel_and_sub clean_up_channel Deaf write_ends close_channels
create_channel_and_sub-Deaf pipe fork num =
    let v =
      create_from-Closable pipe fork num 0 (record { table = []; channels = []; children = [] })
        (record { parent = refl; others = tt }) in
    (v.others, v.parent)
