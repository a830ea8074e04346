-- ===== src/Route/Tests.antt =====
-- A chat of two users.
use linux_cpp.Common.{◌≡◌, refl, [], ◌∷◌, not, if◌then◌else◌, pos, codes, to_string}
use linux_cpp.Route.{InetAddr, Task, same_user, is_online, is_quit, forward, send_message}
use linux_cpp.Route.Online.{Distinct, forward_lem}

abbrev ann : InetAddr
ann = record { ip = codes "10.0.0.1"; port = 5000; addr = record { sin_addr = 1; sin_port = 5000 } }

abbrev bob : InetAddr
bob = record { ip = codes "10.0.0.1"; port = 6000; addr = record { sin_addr = 1; sin_port = 6000 } }

abbrev hello : Task
hello = record { sockfd = pos 3; message = codes "hi"; who = ann }

forward_lem_example :
    let users' = (forward (pos 3) (codes "Q") bob (ann ∷ bob ∷ [])).0 in
    Distinct users'
    × (is_online bob users'
        ≡ (if same_user bob bob then not (is_quit (codes "Q")) else is_online bob (ann ∷ bob ∷ [])))
unfolding is_online
forward_lem_example = forward_lem (pos 3) (codes "Q") bob bob (ann ∷ bob ∷ []) (refl, (refl, tt))

hello_test : send_message hello ≡ codes "[10.0.0.1:5000]# hi"
unfolding send_message to_string
hello_test = refl

quit_test : (forward (pos 3) (codes "Q") bob (ann ∷ bob ∷ [])).0 ≡ ann ∷ []
unfolding forward
quit_test = refl
