-- ===== src/Startup/Tests.antt =====
-- The start of the programs at a network where the host is found.
use projet.Base.{ℕ, ◌≡◌, refl, if◌then◌else◌, none, some, List, [], ◌∷◌}
use projet.Base.Exec.{ok}
use projet.Base.Int.{ℤ, pos, negsuc}
use projet.Link.{eqb_ℤ}
use projet.Link.Proxy.{SockaddrIn6}
use projet.Startup.{Network, create_socket}
use projet.Startup.Mains.{
  failure, receives, sender_main, receiver_main, chat_main, as_client, at_host,
}
use projet.Startup.Calls.{carried_out, wanted, create_socket-wanted, mains-socket}

abbrev host : SockaddrIn6
host = record { sin6_addr = 1 ∷ []; sin6_port = 0; sin6_others = 0 }

-- The descriptor of `socket`, and what `connect` answers.
abbrev network : ℤ → ℤ → Network
network socket answer = record {
  lookup = λ name. some host;
  socket = socket;
  bind = λ fd addr. pos 0;
  connect = λ fd addr. answer;
  peek = λ fd. (pos 0, host);
}

abbrev atoi : List ℕ → ℤ
atoi text = pos 8000

create_socket-wanted_example :
    create_socket (network (pos 3) (negsuc 0)) none (negsuc 0) (some host) (pos 8000) ≡ (
      if eqb_ℤ (pos 3) (negsuc 0)
      then record { result = negsuc 0; calls = [] }
      else let (calls, done) =
          carried_out
            (network (pos 3) (negsuc 0))
            (wanted (pos 3) none (negsuc 0) (some host) (pos 8000)) in
        record { result = if done then pos 3 else negsuc 0; calls = calls })
create_socket-wanted_example =
    create_socket-wanted (network (pos 3) (negsuc 0)) none (negsuc 0) (some host) (pos 8000)

mains-socket_example :
    (sender_main atoi
        (network (negsuc 0) (pos 0))
        (λ name. pos 5)
        ([] ∷ (104 ∷ []) ∷ (56 ∷ []) ∷ [])
      ≡ ok (failure []))
    × (receiver_main atoi (network (negsuc 0) (pos 0)) ([] ∷ (104 ∷ []) ∷ (56 ∷ []) ∷ [])
        ≡ ok (receives (negsuc 0) []))
    × (chat_main atoi (network (negsuc 0) (pos 0)) (as_client ∷ at_host (104 ∷ []) ∷ [])
        ≡ ok (failure []))
mains-socket_example =
    mains-socket atoi (network (negsuc 0) (pos 0)) (λ name. pos 5) [] (104 ∷ []) (56 ∷ []) []
      (as_client ∷ at_host (104 ∷ []) ∷ []) host refl refl refl
