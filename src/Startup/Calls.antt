-- ===== src/Startup/Calls.antt =====
-- Which calls of the socket library `create_socket` makes, and what the programs do when they fail.
use projet.Base.{
  ℕ, ◌≡◌, refl, Bool, true, false, Bool-cases, inl, inr, Option, none, some, List, [], ◌∷◌,
  if◌then◌else◌,
}
use projet.Base.Exec.{ok}
use projet.Base.Int.{ℤ, pos, negsuc, ltb_ℤ}
use projet.Link.{eqb_ℤ}
use projet.Link.Proxy.{SockaddrIn6}
use projet.Startup.{
  Network, Call, bound, connected, closed, is_nonzero, with_port, map_addr, real_address,
  create_socket,
}
use projet.Startup.Mains.{
  failure, receives, Choice, chosen_file, invalid, standard_input, named, start_sender, sender_main,
  receiver_main, chat_options, chat_defaults, ChatOption, chat_main,
}

-- A port greater than 0 replaces the one of an address.
abbrev pub at_port_of : ℤ → SockaddrIn6 → SockaddrIn6
at_port_of port a = if ltb_ℤ (pos 0) port then with_port port a else a

-- The calls that give a socket: a server is bound to its own address; a client is bound to the
-- address of its server, without the port, and connected to it.
abbrev pub wanted : ℤ → Option SockaddrIn6 → ℤ → Option SockaddrIn6 → ℤ → List Call
wanted fd (some a) src_port dest dst_port = bound fd (some (at_port_of src_port a)) ∷ []
wanted fd none src_port dest dst_port =
    bound fd dest ∷ connected fd (map_addr (at_port_of dst_port) dest) ∷ []

abbrev pub fails : Network → Call → Bool
fails net (bound fd a) = is_nonzero (net.bind fd a)
fails net (connected fd a) = is_nonzero (net.connect fd a)
fails net (closed fd) = false

-- The calls up to the first that fails, with it, and whether none does.
abbrev pub carried_out : Network → List Call → List Call × Bool
carried_out net [] = ([], true)
carried_out net (call ∷ calls) =
    if fails net call
    then (call ∷ [], false)
    else let (later, done) = carried_out net calls in (call ∷ later, done)

map_addr-if :
    (port : ℤ) (a : Option SockaddrIn6)
    → (if ltb_ℤ (pos 0) port then map_addr (with_port port) a else a) ≡ map_addr (at_port_of port) a
map_addr-if port none = elim (Bool-cases (ltb_ℤ (pos 0) port)) [
  | inl h ↦ rw h refl
  | inr h ↦ rw h refl
]
map_addr-if port (some a) = elim (Bool-cases (ltb_ℤ (pos 0) port)) [
  | inl h ↦ rw h refl
  | inr h ↦ rw h refl
]

-- `create_socket` makes the wanted calls up to the first that fails, or none if `socket` answers -1;
-- it answers the descriptor of `socket` if all succeed, and -1 otherwise.
pub create_socket-wanted :
    (net : Network) (source : Option SockaddrIn6) (src_port : ℤ) (dest : Option SockaddrIn6)
    (dst_port : ℤ)
    → create_socket net source src_port dest dst_port ≡ (
        if eqb_ℤ net.socket (negsuc 0)
        then record { result = negsuc 0; calls = [] }
        else let (calls, done) =
            carried_out net (wanted net.socket source src_port dest dst_port) in
          record { result = if done then net.socket else negsuc 0; calls = calls })
unfolding create_socket
create_socket-wanted net (some a) src_port dest dst_port =
    let fd = net.socket in
    let own = some (at_port_of src_port a) in
    elim (Bool-cases (is_nonzero (net.bind fd own))) [ inl h ↦ rw h refl | inr h ↦ rw h refl ]
create_socket-wanted net none src_port dest dst_port =
    let fd = net.socket in
    rw (map_addr-if dst_port dest) (elim (Bool-cases (is_nonzero (net.bind fd dest))) [
      | inl h ↦ rw h refl
      | inr h ↦
          elim (Bool-cases (is_nonzero (net.connect fd (map_addr (at_port_of dst_port) dest)))) [
            | inl h' ↦ rw (h, h') refl
            | inr h' ↦ rw (h, h') refl
          ]
    ])

no_socket :
    (net : Network) (source : Option SockaddrIn6) (src_port : ℤ) (dest : Option SockaddrIn6)
    (dst_port : ℤ)
    → net.socket ≡ negsuc 0
    → create_socket net source src_port dest dst_port ≡ record { result = negsuc 0; calls = [] }
unfolding create_socket
no_socket net source src_port dest dst_port h = rw h refl

resolved :
    (net : Network) (name : List ℕ) (addr : SockaddrIn6)
    → net.lookup name ≡ some addr
    → real_address net name ≡ ok (some addr)
unfolding real_address
resolved net name addr found = rw (real_address, found) refl

module _ (atoi : List ℕ → ℤ) (net : Network) (open_file : List ℕ → ℤ) where
  sender_fails :
      (choice : Choice) (hostname port : List ℕ) (addr : SockaddrIn6)
      → net.lookup hostname ≡ some addr
      → net.socket ≡ negsuc 0
      → start_sender atoi net open_file choice hostname port ≡ ok (failure [])
  unfolding start_sender
  sender_fails invalid hostname port addr found none_left = refl
  sender_fails standard_input hostname port addr found none_left =
      rw
        (
          resolved net hostname addr found,
          no_socket net none (negsuc 0) (some addr) (atoi port) none_left,
        )
        refl
  sender_fails (named file) hostname port addr found none_left =
      rw
        (
          resolved net hostname addr found,
          no_socket net none (negsuc 0) (some addr) (atoi port) none_left,
        )
        refl

  -- When the host is found but `socket` answers -1, the sender and chat end with EXIT_FAILURE without any
  -- further call; the receiver starts to read from the descriptor -1.
  pub mains-socket :
      (program hostname port : List ℕ) (rest : List (List ℕ)) (options : List ChatOption)
      (addr : SockaddrIn6)
      → net.lookup hostname ≡ some addr
      → net.socket ≡ negsuc 0
      → (chat_options atoi net options chat_defaults).host ≡ hostname
      → (sender_main atoi net open_file (program ∷ hostname ∷ port ∷ rest) ≡ ok (failure []))
        × (receiver_main atoi net (program ∷ hostname ∷ port ∷ rest) ≡ ok (receives (negsuc 0) []))
        × (chat_main atoi net options ≡ ok (failure []))
  unfolding sender_main receiver_main chat_main
  mains-socket program hostname port rest options addr found none_left same =
      let o = chat_options atoi net options chat_defaults in
      (
        sender_fails (chosen_file rest) hostname port addr found none_left,
        rw
            (
              resolved net hostname addr found,
              no_socket net (some addr) (atoi port) none (negsuc 0) none_left,
            )
            refl,
        rw
            (
              same,
              resolved net hostname addr found,
              no_socket net (some addr) o.port none (negsuc 0) none_left,
              no_socket net none (negsuc 0) (some addr) o.port none_left,
            )
            (elim (Bool-cases o.client) [ inl h ↦ rw h refl | inr h ↦ rw h refl ]),
      )
