-- ===== src/Os/Sample.antt =====
-- One operating system, for tests and examples: every call succeeds, accept gives out descriptor 5,
-- and a peer that is read from has closed its end.
use linux_cpp.Common.{[], ◌∷◌, pos, refl, arith}
use linux_cpp.Os.{Os, SockAddr, NotZero, Ordinary}

abbrev pub sample_peer : SockAddr
sample_peer = record { sin_addr = 2130706433; sin_port = 8888 }

abbrev pub sample_os : Os
sample_os = record {
  socket = λ t. pos 3;
  bind = λ t fd port. pos 0;
  listen = λ t fd backlog. pos 0;
  connect = λ t fd peer. pos 0;
  inet_pton = λ ip. 2130706433;
  accept = λ t fd. record { fd = pos 5; client = sample_peer };
  recv = λ t fd n. record { n = pos 0; buffer = [] };
  recvfrom = λ t fd n. record { n = pos 2; buffer = 104 ∷ 105 ∷ []; peer = sample_peer };
  send = λ t fd text. pos 1;
  select = λ t n rfds. record { n = pos 1; rfds = rfds };
  poll = λ t fds. record { n = pos 1; revents = λ i. 1 };
  epoll_create = λ t size. pos 4;
  epoll_ctl = λ t op fd. pos 0;
  epoll_wait = λ t fd n. record { n = pos 1; revs = record { fd = pos 3; events = 1 } ∷ [] };
}

pub sample_os-NotZero : NotZero sample_os
sample_os-NotZero t l = ground arith

pub sample_os-Ordinary : Ordinary 1024 sample_os
sample_os-Ordinary = record {
  accept_not_zero = sample_os-NotZero;
  accept_below = λ t l. refl;
  socket_below = λ t. refl;
}
