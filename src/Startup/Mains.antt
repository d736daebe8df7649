-- ===== src/Startup/Mains.antt =====
-- The `main` of sender.c, of receiver.c and of chatUDP/chat.c.
use projet.Base.{ℕ, Bool, true, false, ◌&&◌, none, some, List, [], ◌∷◌, ◌++◌, if◌then◌else◌}
use projet.Base.Exec.{Exec, ok, fault, ◌>>=◌}
use projet.Base.Int.{ℤ, pos, negsuc, ltb_ℤ}
use projet.Link.Proxy.{SockaddrIn6, differ}
use projet.Startup.{Network, Call, closed, Answer, real_address, create_socket, wait_for_client}

-- What a program goes on to do, with the calls before: it ends with EXIT_FAILURE, or runs
-- `sel_repeat_write` on a file and a socket, `sel_repeat_read` on a socket, or `read_write_loop` on
-- one.
pub data Ends : Type 0 where
  failure : List Call → Ends
  sends : ℤ → ℤ → List Call → Ends
  receives chats : ℤ → List Call → Ends

-- Which file the command line of the sender names.
pub data Choice : Type 0 where
  invalid standard_input : Choice
  named : List ℕ → Choice

-- The arguments behind host and port, with "-f" and "--filename" as bytes.
unfoldable pub chosen_file : List (List ℕ) → Choice
chosen_file (option ∷ []) = invalid
chosen_file (option ∷ filename ∷ []) =
    if differ option (45 ∷ 102 ∷ [])
      && differ option (45 ∷ 45 ∷ 102 ∷ 105 ∷ 108 ∷ 101 ∷ 110 ∷ 97 ∷ 109 ∷ 101 ∷ [])
    then invalid
    else named filename
chosen_file _ = standard_input

-- The descriptor to read from: where `open` fails, a message is printed, and its result is used.
abbrev pub opened : (List ℕ → ℤ) → Choice → ℤ
opened open_file (named filename) = open_file filename
opened open_file _ = pos 0

-- The options of chat.c, as `getopt` gives them.
pub data ChatOption : Type 0 where
  as_server as_client unknown : ChatOption
  at_port at_host : List ℕ → ChatOption

pub record ChatOptions : Type 0 where
  pub client : Bool
  pub port : ℤ
  pub host : List ℕ

-- The host is "::1", as bytes.
abbrev pub chat_defaults : ChatOptions
chat_defaults = record { client = false; port = pos 12345; host = 58 ∷ 58 ∷ 49 ∷ [] }

module _ (atoi : List ℕ → ℤ) (net : Network) where
  unfoldable pub start_sender : (List ℕ → ℤ) → Choice → List ℕ → List ℕ → Exec Ends
  start_sender open_file invalid hostname port = ok (failure [])
  start_sender open_file choice hostname port = real_address net hostname >>= λ found. elim found [
    | none ↦ ok (failure [])
    | some addr ↦
        let socket = create_socket net none (negsuc 0) (some addr) (atoi port) in
        if ltb_ℤ socket.result (pos 0)
        then ok (failure socket.calls)
        else ok (sends (opened open_file choice) socket.result socket.calls)
  ]

  -- `main` of sender.c: without a host and a port, `atoi` is given a null pointer or worse.
  unfoldable pub sender_main : (List ℕ → ℤ) → List (List ℕ) → Exec Ends
  sender_main open_file (program ∷ hostname ∷ port ∷ rest) =
      start_sender open_file (chosen_file rest) hostname port
  sender_main open_file _ = fault

  -- The socket of a server, and whether it then waits for a client in vain.
  abbrev pub serve_at : SockaddrIn6 → ℤ → Answer × Bool × List Call
  serve_at addr port =
      let socket = create_socket net (some addr) port none (negsuc 0) in
      let client = wait_for_client net socket.result in
      if ltb_ℤ (pos 0) socket.result
      then (socket, ltb_ℤ client.result (pos 0), socket.calls ++ client.calls)
      else (socket, false, socket.calls)

  -- `main` of receiver.c
  unfoldable pub receiver_main : List (List ℕ) → Exec Ends
  receiver_main (program ∷ hostname ∷ port ∷ rest) = real_address net hostname >>= λ found.
      elim found [
        | none ↦ ok (failure [])
        | some addr ↦
            let (socket, in_vain, calls) = serve_at addr (atoi port) in
            if in_vain
            then ok (failure (calls ++ closed socket.result ∷ []))
            else ok (receives socket.result calls)
      ]
  receiver_main _ = fault

  abbrev pub chat_option : ChatOption → ChatOptions → ChatOptions
  chat_option as_server o = record o { client = false }
  chat_option as_client o = record o { client = true }
  chat_option (at_port text) o = record o { port = atoi text }
  chat_option (at_host text) o = record o { host = text }
  chat_option unknown o = o

  abbrev pub chat_options : List ChatOption → ChatOptions → ChatOptions
  chat_options [] o = o
  chat_options (option ∷ rest) o = chat_options rest (chat_option option o)

  -- `main` of chat.c
  unfoldable pub chat_main : List ChatOption → Exec Ends
  chat_main options =
      let o = chat_options options chat_defaults in
      real_address net o.host >>= λ found. elim found [
        | none ↦ ok (failure [])
        | some addr ↦
            let (socket, in_vain, calls) =
              if o.client
              then (let s = create_socket net none (negsuc 0) (some addr) o.port in
                  (s, false, s.calls))
              else serve_at addr o.port in
            if in_vain
            then ok (failure (calls ++ closed socket.result ∷ []))
            else if ltb_ℤ socket.result (pos 0)
            then ok (failure calls)
            else ok (chats socket.result calls)
      ]
