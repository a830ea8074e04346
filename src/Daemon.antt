-- ===== src/Daemon.antt =====
-- ProtectProcess/Daemon.hpp: how a process becomes a daemon. What it has open is a function of the
-- descriptor. The answers of fork, setsid, chdir and open are arguments.
pub mod Streams
mod Tests
use linux_cpp.Common.{
  List, [], ◌∷◌, Bool, true, false, if◌then◌else◌, ℤ, pos, eqb, ltz, Bytes, codes, Option, none,
  some,
}

abbrev pub root : Bytes
root = codes "/"

abbrev pub dev_null : Bytes
dev_null = codes "/dev/null"

-- A descriptor is a path here, the name of what is open.
abbrev pub Files : Type 0
Files = ℤ → Option Bytes

pub close_fd : ℤ → Files → Files
close_fd fd files x = if eqb x fd then none else files x

-- `dup2` of a descriptor that is not open changes nothing.
pub dup2 : (oldfd newfd : ℤ) → Files → Files
dup2 oldfd newfd files x =
    if eqb x newfd then elim (files oldfd) [ none ↦ files x | some file ↦ some file ] else files x

-- `open` that answers `fd`.
pub open_as : ℤ → Bytes → Files → Files
open_as fd path files x =
    if ltz fd (pos 0) then files x else if eqb x fd then some path else files x

pub record Process : Type 0 where
  pub ignored : List Bytes
  pub session : Bool  -- whether it leads a session of its own
  pub cwd : Bytes
  pub files : Files

pub data Result : Type 0 where
  exited : (status : ℤ) → Process → Result
  runs_on : Process → Result

pub close_streams : Files → Files
unfolding close_fd
close_streams files = close_fd (pos 2) (close_fd (pos 1) (close_fd (pos 0) files))

pub redirect_streams : (fd : ℤ) → Files → Files
unfolding close_fd dup2
redirect_streams fd files =
    if ltz (pos 0) fd
    then close_fd fd (dup2 fd (pos 2) (dup2 fd (pos 1) (dup2 fd (pos 0) files)))
    else files

-- setsid answers the number of the new session or -1, chdir 0 or -1, and open `fd`.
pub daemon : (fork setsid chdir fd : ℤ) → (ischdir isclose : Bool) → Process → Result
unfolding close_streams redirect_streams open_as
daemon fork setsid chdir fd ischdir isclose p =
    let ignoring : Process = record p { ignored = codes "SIGPIPE" ∷ codes "SIGCHLD" ∷ p.ignored } in
    if ltz (pos 0) fork
    then exited (pos 0) ignoring
    else runs_on (record ignoring {
      session = if ltz setsid (pos 0) then p.session else true;
      cwd = if ischdir then (if eqb chdir (pos 0) then root else p.cwd) else p.cwd;
      files =
          if isclose
          then close_streams p.files
          else redirect_streams fd (open_as fd dev_null p.files);
    })
