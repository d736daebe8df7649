-- ===== src/Startup.antt =====
-- The start of the programs: sender.c, receiver.c, and chatUDP. The socket library, `open`, `atoi`
-- and `getopt` are the environment; what is printed is left out.
pub mod Mains
pub mod Calls
mod Tests
use projet.Base.{
  ℕ, ◌%◌, ◌^◌, Bool, true, false, not, ◌||◌, Option, none, some, List, [], ◌∷◌, ◌++◌, if◌then◌else◌,
}
use projet.Base.Exec.{Exec, ok, fault}
use projet.Base.Word.{u16, swap16}
use projet.Base.Int.{ℤ, pos, negsuc, pos_part, ltb_ℤ}
use projet.Link.{eqb_ℤ}
use projet.Link.Proxy.{SockaddrIn6}

-- What the calls give: `getaddrinfo` for a name, none for an error; `socket`; `bind` and `connect` for
-- a descriptor and an address, none for NULL; and `recvfrom`, with the address it stores.
pub record Network : Type 0 where
  pub lookup : List ℕ → Option SockaddrIn6
  pub socket : ℤ
  pub bind : ℤ → Option SockaddrIn6 → ℤ
  pub connect : ℤ → Option SockaddrIn6 → ℤ
  pub peek : ℤ → ℤ × SockaddrIn6

-- A call on a descriptor.
pub data Call : Type 0 where
  bound connected : ℤ → Option SockaddrIn6 → Call
  closed : ℤ → Call

-- An answer, and the calls that were made before.
pub record Answer : Type 0 where
  pub result : ℤ
  pub calls : List Call

-- A result other than 0 is true.
abbrev pub is_nonzero : ℤ → Bool
is_nonzero a = not (eqb_ℤ a (pos 0))

-- `real_address`: the result of `getaddrinfo` is used before its error is tested, when the pointer
-- still leads to fresh memory.
unfoldable pub real_address : Network → List ℕ → Exec (Option SockaddrIn6)
real_address net address = elim (net.lookup address) [ none ↦ fault | some a ↦ ok (some a) ]

-- `addr->sin6_port = htons(port)`
abbrev pub with_port : ℤ → SockaddrIn6 → SockaddrIn6
with_port port a = record a { sin6_port = swap16 (u16 (pos_part port)) }

abbrev pub map_addr : (SockaddrIn6 → SockaddrIn6) → Option SockaddrIn6 → Option SockaddrIn6
map_addr f none = none
map_addr f (some a) = some (f a)

unfoldable pub create_socket : Network → Option SockaddrIn6 → ℤ → Option SockaddrIn6 → ℤ → Answer
create_socket net source_addr src_port dest_addr dst_port =
    let fd = net.socket in
    if eqb_ℤ fd (negsuc 0) then record { result = negsuc 0; calls = [] } else elim source_addr [
      | some a ↦
          let own = some (if ltb_ℤ (pos 0) src_port then with_port src_port a else a) in
          if is_nonzero (net.bind fd own)
          then record { result = negsuc 0; calls = bound fd own ∷ [] }
          else record { result = fd; calls = bound fd own ∷ [] }
      | none ↦
          if is_nonzero (net.bind fd dest_addr)
          then record { result = negsuc 0; calls = bound fd dest_addr ∷ [] }
          else let other =
              if ltb_ℤ (pos 0) dst_port
              then map_addr (with_port dst_port) dest_addr
              else dest_addr in
            if is_nonzero (net.connect fd other)
            then record { result = negsuc 0; calls = bound fd dest_addr ∷ connected fd other ∷ [] }
            else record { result = fd; calls = bound fd dest_addr ∷ connected fd other ∷ [] }
    ]

unfoldable pub wait_for_client : Network → ℤ → Answer
wait_for_client net sfd =
    let (received, source) = net.peek sfd in
    if is_nonzero received
    then record { result = negsuc 0; calls = [] }
    else if is_nonzero (net.connect sfd (some source))
    then record { result = negsuc 0; calls = connected sfd (some source) ∷ [] }
    else record { result = pos 0; calls = connected sfd (some source) ∷ [] }

-- What a turn of `read_write_loop` does.
pub data Action : Type 0 where
  exits idle : Action
  to_socket to_output : List ℕ → Action

-- A turn, where `select` fails, or says whether there is something on the standard input and on the
-- socket, and `read` gives at most 1024 bytes, none at the end of the input, or fails. After a failure
-- `write` is given a size beyond all memory.
unfoldable pub read_write_turn :
    Option (Bool × Bool) → Option (List ℕ) → Option (List ℕ) → Exec Action
read_write_turn none input received = ok exits
read_write_turn (some (true, on_socket)) none received = fault
read_write_turn (some (true, on_socket)) (some bytes) received = ok (to_socket bytes)
read_write_turn (some (false, true)) input none = fault
read_write_turn (some (false, true)) input (some bytes) = ok (to_output bytes)
read_write_turn (some (false, false)) input received = ok idle
