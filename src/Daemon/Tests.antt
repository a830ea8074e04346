-- ===== src/Daemon/Tests.antt =====
-- A process with its three streams open.
use linux_cpp.Common.{
  arith, ◌≡◌, refl, [], true, false, if◌then◌else◌, pos, negsuc, codes, none, some,
}
use linux_cpp.Daemon.{root, Files, Process, runs_on, exited, daemon}
use linux_cpp.Daemon.Streams.{standard, Silent, daemon-streams}

abbrev terminal : Files
terminal x = if standard x then some (codes "/dev/tty") else none

abbrev shell_child : Process
shell_child = record { ignored = []; session = false; cwd = codes "/root"; files = terminal }

daemon-streams_example :
    let first = daemon (pos 42) (negsuc 0) (pos 0) (pos 3) true false shell_child in
    let second = daemon (pos 0) (pos 42) (pos 0) (pos 3) true false shell_child in
    let failed = daemon (negsuc 0) (negsuc 0) (pos 0) (pos 3) true false shell_child in
    ((q : Process) × (first ≡ exited (pos 0) q))
    × ((q : Process) × (second ≡ runs_on q)
        × (q.session ≡ true)
        × (q.cwd ≡ root)
        × Silent shell_child q)
    × ((q : Process) × (failed ≡ runs_on q) × (q.session ≡ false) × Silent shell_child q)
daemon-streams_example =
    daemon-streams 42 42 (negsuc 0) (pos 0) 3 true shell_child (omega arith) (omega arith) refl
