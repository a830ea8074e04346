-- ===== src/Route/Online.antt =====
-- Who is online after a message.
use linux_cpp.Common.{
  ◌≡◌, refl, [], ◌∷◌, ◌++◌, true, false, ◌||◌, not, ◌&&◌, if◌then◌else◌, ℤ, Bytes, bytes_eq_iff,
  arith,
}
use linux_cpp.Route.{
  InetAddr, Users, same_user, is_online, check_online_user, offline, is_quit, forward,
}

same_user_sym : (a b : InetAddr) → same_user a b ≡ same_user b a
unfolding same_user
same_user_sym a b = ground (arith, bytes_eq_iff a.ip b.ip, bytes_eq_iff b.ip a.ip)

same_user_trans : (a b c : InetAddr) → same_user a b ≡ true → same_user b c ≡ same_user a c
unfolding same_user
same_user_trans a b c h =
    ground (arith, bytes_eq_iff a.ip b.ip, bytes_eq_iff b.ip c.ip, bytes_eq_iff a.ip c.ip)

same_user_self : (a : InetAddr) → same_user a a ≡ true
unfolding same_user
same_user_self a = ground (arith, bytes_eq_iff a.ip a.ip)

-- No user is listed twice.
abbrev pub Distinct : Users → Type 0
Distinct [] = Unit
Distinct (user ∷ users) = (is_online user users ≡ false) × Distinct users

is_online-append :
    (who : InetAddr) (xs ys : Users)
    → is_online who (xs ++ ys) ≡ (is_online who xs || is_online who ys)
unfolding is_online
is_online-append who [] ys = refl
is_online-append who (x ∷ xs) ys = ground (arith, is_online-append who xs ys)

is_online-same :
    (a b : InetAddr) (xs : Users) → same_user a b ≡ true → is_online a xs ≡ is_online b xs
unfolding is_online
is_online-same a b [] h = refl
is_online-same a b (x ∷ xs) h =
    ground (
      arith,
      is_online-same a b xs h,
      same_user_trans a b x h,
      same_user_sym x a,
      same_user_sym x b,
    )

Distinct-append_one :
    (who : InetAddr) (xs : Users)
    → Distinct xs
    → is_online who xs ≡ false
    → Distinct (xs ++ who ∷ [])
unfolding is_online
Distinct-append_one who [] d h = (refl, tt)
Distinct-append_one who (x ∷ xs) d h =
    ground
      (arith, Distinct-append_one who xs d.1, is_online-append x xs (who ∷ []), same_user_sym x who)

is_online-offline :
    (who other : InetAddr) (xs : Users)
    → Distinct xs
    → is_online other (offline who xs) ≡ (is_online other xs && not (same_user who other))
unfolding is_online offline
is_online-offline who other [] d = refl
is_online-offline who other (x ∷ xs) d = ground (
  arith,
  is_online-offline who other xs d.1,
  same_user_trans x who other,
  same_user_trans who other x,
  same_user_sym other x,
  same_user_sym who x,
  is_online-same x other xs,
)

pub offline-Distinct : (who : InetAddr) (xs : Users) → Distinct xs → Distinct (offline who xs)
unfolding offline
offline-Distinct who [] d = tt
offline-Distinct who (x ∷ xs) d =
    ground (arith, offline-Distinct who xs d.1, is_online-offline who x xs d.1)

is_online-check :
    (who other : InetAddr) (xs : Users)
    → is_online other (check_online_user who xs) ≡ (is_online other xs || same_user who other)
unfolding check_online_user
is_online-check who other xs =
    ground (arith, is_online-append other xs (who ∷ []), is_online-same who other xs, one who other)
  where
    one : (a b : InetAddr) → is_online b (a ∷ []) ≡ same_user a b
    one a b = ground arith

pub check-Distinct :
    (who : InetAddr) (xs : Users) → Distinct xs → Distinct (check_online_user who xs)
unfolding check_online_user
check-Distinct who xs d = ground (arith, Distinct-append_one who xs d)

-- When no user is listed twice, then after a message from `who` no user is listed twice, `who` is
-- online unless the message is "QUIT" or "Q", and every other user is online exactly when they were
-- before.
pub forward_lem :
    (sockfd : ℤ) (message : Bytes) (who other : InetAddr) (users : Users)
    → Distinct users
    → let users' = (forward sockfd message who users).0 in
      Distinct users'
      × (is_online other users'
          ≡ (if same_user who other then not (is_quit message) else is_online other users))
unfolding forward
forward_lem sockfd message who other users d =
    let known = check_online_user who users in
    let d' = check-Distinct who users d in
    (
      ground (arith, d', offline-Distinct who known d'),
      ground (arith, is_online-check who other users, is_online-offline who other known d'),
    )
