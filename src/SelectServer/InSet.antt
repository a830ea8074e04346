-- ===== src/SelectServer/InSet.antt =====
-- No descriptor of the table lies outside the sets of select.
use linux_cpp.Common.{
  ℕ, zero, suc, ◌≡◌, refl, ap, List, [], ◌∷◌, Bool, true, false, ◌||◌, not, ℤ, pos, negsuc, eqb,
  ltz, get_or, set, if_split, Option, none, some, arith, length,
}
use linux_cpp.Os.{Os, Ordinary}
use linux_cpp.Socket.{accepter as socket_accepter}
use linux_cpp.SelectServer.Cleared.{Cleared}
use linux_cpp.SelectServer.{
  gdefaultfd, gnum, SelectServer, in_set, all_in_set, place, place_after_first, accepter,
  handler_io, handler_slot, handler_event_from, handler_event,
}

pub all_in_set-get_or :
    (fds : List ℤ) (i : ℕ)
    → all_in_set fds ≡ true
    → (eqb (get_or fds i gdefaultfd) gdefaultfd || in_set (get_or fds i gdefaultfd)) ≡ true
all_in_set-get_or [] i h = refl
all_in_set-get_or (fd ∷ fds) zero h = ground (arith, h)
all_in_set-get_or (fd ∷ fds) (suc i) h = all_in_set-get_or fds i (ground (arith, h))

pub all_in_set-set :
    (fds : List ℤ) (i : ℕ) (v : ℤ)
    → (eqb v gdefaultfd || in_set v) ≡ true
    → all_in_set fds ≡ true
    → all_in_set (set fds i v) ≡ true
all_in_set-set [] i v k h = refl
all_in_set-set (fd ∷ fds) zero v k h = ground (arith, h, k)
all_in_set-set (fd ∷ fds) (suc i) v k h =
    let rest = all_in_set-set fds i v k (ground (arith, h)) in ground (arith, h, rest)

-- What a search leaves is in the sets.
abbrev AllInSet : Option (List ℤ) → Type 0
AllInSet none = Unit
AllInSet (some fds) = all_in_set fds ≡ true

place-AllInSet :
    (v : ℤ) (fds : List ℤ) → in_set v ≡ true → all_in_set fds ≡ true → AllInSet (place v fds)
unfolding place
place-AllInSet v [] k h = tt
place-AllInSet v (fd ∷ fds) k h =
    let rest = place-AllInSet v fds k (ground (arith, h)) in ground (arith, rest, h, k)

place_after_first-AllInSet :
    (v : ℤ) (fds : List ℤ)
    → in_set v ≡ true
    → all_in_set fds ≡ true
    → AllInSet (place_after_first v fds)
unfolding place_after_first
place_after_first-AllInSet v [] k h = tt
place_after_first-AllInSet v (fd ∷ fds) k h =
    let rest = place-AllInSet v fds k (ground (arith, h)) in ground (arith, rest, h, k)

positive-in_set : (fd : ℤ) → ltz (pos 0) fd ≡ true → ltz fd (pos gnum) ≡ true → in_set fd ≡ true
positive-in_set (pos n) h k = ground (arith, k)
positive-in_set (negsuc n) h k = absurd (ground (arith, h))

pub not_negative-in_set :
    (fd : ℤ) → ltz fd (pos 0) ≡ false → ltz fd (pos gnum) ≡ true → in_set fd ≡ true
not_negative-in_set (pos n) h k = ground (arith, k)
not_negative-in_set (negsuc n) h k = absurd (ground (arith, h))

pub all_in_set-Cleared : (fds : List ℤ) → Cleared (length fds) fds → all_in_set fds ≡ true
all_in_set-Cleared [] c = refl
all_in_set-Cleared (fd ∷ fds) c =
    let rest = all_in_set-Cleared fds (λ j h. c (suc j) (omega (arith, h))) in
    let free = ap (λ x. eqb x gdefaultfd) (c 0 (omega arith)) in ground (arith, rest, free)

-- The table lies in the sets, and nothing has gone wrong.
pub record InSet (s : SelectServer) : Type 0 where
  pub table : all_in_set s.fd_array ≡ true
  pub sound : s.fault ≡ false

module _ (os : Os) (given : Ordinary gnum os) where
  pub accepter-InSet : (s : SelectServer) → InSet s → InSet (accepter os s)
  unfolding accepter socket_accepter
  accepter-InSet s v =
      let fd = (os.accept s.trace s.listensock.sockfd).fd in
      let below = given.accept_below s.trace s.listensock.sockfd in
      record {
        table =
            ground
              (arith, v.table, place_after_first-AllInSet fd s.fd_array, positive-in_set fd, below);
        sound = ground (arith, v.sound);
      }

  pub handler_io-InSet : (i : ℕ) (s : SelectServer) → InSet s → InSet (handler_io os i s)
  unfolding handler_io
  handler_io-InSet i s v = record {
    table = ground (arith, v.table, all_in_set-set s.fd_array i gdefaultfd refl);
    sound = ground (arith, v.sound);
  }

  handler_slot-InSet :
      (rfds : ℤ → Bool) (i : ℕ) (s : SelectServer) → InSet s → InSet (handler_slot os rfds i s)
  unfolding handler_slot
  handler_slot-InSet rfds i s v =
      let fd = get_or s.fd_array i gdefaultfd in
      if_split InSet (eqb fd gdefaultfd) (λ _. v)
        (λ used.
          if_split InSet (not (in_set fd))
            (λ outside.
              absurd (ground (arith, all_in_set-get_or s.fd_array i v.table, used, outside)))
            (λ _.
              if_split InSet (rfds fd)
                (λ _.
                  if_split InSet (eqb s.listensock.sockfd fd) (λ _. accepter-InSet s v)
                    (λ _. handler_io-InSet i s v))
                (λ _. v)))

  handler_event_from-InSet :
      (rfds : ℤ → Bool) (rounds i : ℕ) (s : SelectServer)
      → InSet s
      → InSet (handler_event_from os rfds rounds i s)
  unfolding handler_event_from
  handler_event_from-InSet rfds zero i s v = v
  handler_event_from-InSet rfds (suc rounds) i s v =
      handler_event_from-InSet rfds rounds (suc i) _ (handler_slot-InSet rfds i s v)

  pub handler_event-InSet :
      (rfds : ℤ → Bool) (s : SelectServer) → InSet s → InSet (handler_event os rfds s)
  unfolding handler_event
  handler_event-InSet rfds s v = handler_event_from-InSet rfds gnum 0 s v
