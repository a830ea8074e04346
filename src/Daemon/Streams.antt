-- ===== src/Daemon/Streams.antt =====
-- The standard streams of a daemon.
use linux_cpp.Common.{
  codes, ap, ◌∷◌, ℕ, ◌<◌, ◌≡◌, refl, ◌∙◌, Bool, true, false, if◌then◌else◌, ℤ, pos, negsuc, eqb,
  eqb_iff, eqb_self, ltz, Bytes, Option, none, some, arith,
}
use linux_cpp.Daemon.{
  root, dev_null, Files, close_fd, dup2, open_as, Process, runs_on, exited, redirect_streams,
  daemon,
}

if_same : (b : Bool) (x y : Option Bytes) → y ≡ x → (if b then x else y) ≡ x
if_same true x y e = refl
if_same false x y e = e

-- Whether it is one of the standard streams.
abbrev pub standard : ℤ → Bool
standard x = if eqb x (pos 0) then true else if eqb x (pos 1) then true else eqb x (pos 2)

dup2-open :
    (fd new : ℤ) (files : Files) (file : Bytes) (x : ℤ)
    → files fd ≡ some file
    → dup2 fd new files x ≡ (if eqb x new then some file else files x)
unfolding dup2
dup2-open fd new files file x e = rw e refl

open_as-file :
    (fd : ℤ) (path : Bytes) (files : Files) (x : ℤ)
    → ltz fd (pos 0) ≡ false
    → open_as fd path files x ≡ (if eqb x fd then some path else files x)
unfolding open_as
open_as-file fd path files x h = rw h refl

-- `dup2` onto another descriptor leaves the old one as it is.
dup2-keeps :
    (fd new : ℤ) (files : Files) (file : Bytes)
    → files fd ≡ some file
    → dup2 fd new files fd ≡ some file
dup2-keeps fd new files file e =
    dup2-open fd new files file fd e ∙ if_same (eqb fd new) (some file) (files fd) e

three_dup2 :
    (fd : ℤ) (files : Files) (file : Bytes) (x : ℤ)
    → files fd ≡ some file
    → dup2 fd (pos 2) (dup2 fd (pos 1) (dup2 fd (pos 0) files)) x
      ≡ (if standard x then some file else files x)
three_dup2 fd files file x e =
    let e_0 = dup2-keeps fd (pos 0) files file e in
    let e_1 = dup2-keeps fd (pos 1) (dup2 fd (pos 0) files) file e_0 in
    ground (
      arith,
      dup2-open fd (pos 0) files file x e,
      dup2-open fd (pos 1) (dup2 fd (pos 0) files) file x e_0,
      dup2-open fd (pos 2) (dup2 fd (pos 1) (dup2 fd (pos 0) files)) file x e_1,
    )

not_standard : (n : ℕ) → 2 < n → standard (pos n) ≡ false
not_standard n h = ground arith

redirect_streams-files :
    (n : ℕ) (files : Files) (x : ℤ)
    → 2 < n
    → files (pos n) ≡ none
    → redirect_streams (pos n) (open_as (pos n) dev_null files) x
      ≡ (if standard x then some dev_null else files x)
unfolding redirect_streams close_fd
redirect_streams-files n files x h unused =
    let opened = open_as (pos n) dev_null files in
    let own : opened (pos n) ≡ some dev_null =
      open_as-file (pos n) dev_null files (pos n) (ground arith) ∙ rw (eqb_self (pos n)) refl in
    let same : eqb x (pos n) ≡ true → files x ≡ none =
      λ e. ap files ((eqb_iff x (pos n)).0 e) ∙ unused in
    let apart : eqb x (pos n) ≡ true → standard x ≡ false =
      λ e. ap standard ((eqb_iff x (pos n)).0 e) ∙ not_standard n h in
    ground (
      arith,
      same,
      apart,
      three_dup2 (pos n) opened dev_null x own,
      open_as-file (pos n) dev_null files x (ground arith),
    )

-- The three standard streams of `q` are /dev/null, the other descriptors are those of `p`.
abbrev pub Silent : Process → Process → Type 0
Silent p q = (x : ℤ) → q.files x ≡ (if standard x then some dev_null else p.files x)

abbrev redirected : ℕ → Process → Process
redirected n p = record p { files = redirect_streams (pos n) (open_as (pos n) dev_null p.files) }

abbrev ignoring : Process → Process
ignoring p = record p { ignored = codes "SIGPIPE" ∷ codes "SIGCHLD" ∷ p.ignored }

-- Three branches of `Daemon` when the streams are not to be closed and /dev/null opens as a
-- descriptor above 2 that was not in use: the parent of a fork that succeeded exits with 0; the
-- child, where setsid and chdir succeed, runs on in a session of its own, in the root directory if
-- it was asked for, its three standard streams are /dev/null, and every other descriptor is as it
-- was before; and where fork fails, the process itself runs on with the same streams, in a session
-- of its own only if setsid succeeds or it had one.
pub daemon-streams :
    (child sid : ℕ) (setsid chdir : ℤ) (n : ℕ) (ischdir : Bool) (p : Process)
    → 0 < child
    → 2 < n
    → p.files (pos n) ≡ none
    → let first = daemon (pos child) setsid chdir (pos n) ischdir false p in
      let second = daemon (pos 0) (pos sid) (pos 0) (pos n) ischdir false p in
      let failed = daemon (negsuc 0) setsid chdir (pos n) ischdir false p in
      ((q : Process) × (first ≡ exited (pos 0) q))
      × ((q : Process) × (second ≡ runs_on q)
          × (q.session ≡ true)
          × (q.cwd ≡ (if ischdir then root else p.cwd))
          × Silent p q)
      × ((q : Process) × (failed ≡ runs_on q)
          × (q.session ≡ (if ltz setsid (pos 0) then p.session else true))
          × Silent p q)
unfolding daemon
daemon-streams child sid setsid chdir n ischdir p h k unused =
    let parent : ltz (pos 0) (pos child) ≡ true = ground (arith, h) in
    let streams : Silent p (redirected n p) = λ x. redirect_streams-files n p.files x k unused in
    ((ignoring p, rw parent refl), (_, refl, ground arith, refl, streams), (_, refl, refl, streams))
