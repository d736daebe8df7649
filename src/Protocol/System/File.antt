-- ===== src/Protocol/System/File.antt =====
-- The programs together, for a file that is read 512 bytes at a time.
use projet.Base.{
  ℕ, zero, suc, ◌+◌, ◌-◌, ◌*◌, ◌≤◌, ◌≡◌, sym, ap, ◌∙◌, true, false, List, [], ◌++◌, arith, length,
  take, drop, length-take, length-drop, length-zero, take-append-drop, drop-drop, append_assoc,
  append-nil,
}
use projet.Base.Exec.{Yields, Yields-map}
use projet.Packet.{max_payload_size}
use projet.Receiver.Stream.{segment}
use projet.Link.{Settings}
use projet.Link.Proxy.{SockaddrIn6, sockaddr_cmp, Proxy}
use projet.Protocol.System.{System, Event, launch, run}
use projet.Protocol.System.Delivery.{run-IsDelivering}

-- What `read` gives of a file, 512 bytes at a time.
abbrev pub chunk : List ℕ → ℕ → List ℕ
chunk file k = take 512 (drop (512 * k) file)

pub chunk_short : (file : List ℕ) (k : ℕ) → length (chunk file k) ≤ max_payload_size
chunk_short file k = omega (arith, length-take 512 (drop (512 * k) file))

-- The chunks make up the file.
segment-drop :
    (file : List ℕ) (count n : ℕ)
    → segment (chunk file) count n ++ drop (512 * (n + count)) file ≡ drop (512 * n) file
segment-drop file zero n = ap (λ k. drop k file) (omega arith)
segment-drop file (suc count) n =
    let moved : n + suc count ≡ suc n + count = omega arith in
    let next : 512 * n + 512 ≡ 512 * suc n = omega arith in
    rw moved (
      append_assoc (chunk file n) (segment (chunk file) count (suc n)) _
      ∙ ap (◌++◌ (chunk file n)) (
          segment-drop file count (suc n)
          ∙ ap (λ k. drop k file) (sym next)
          ∙ sym (drop-drop (512 * n) 512 file))
      ∙ take-append-drop 512 (drop (512 * n) file))

segment-start : (file : List ℕ) (n : ℕ) → segment (chunk file) n 0 ++ drop (512 * n) file ≡ file
segment-start file n =
    let same : 0 + n ≡ n = omega arith in let all = segment-drop file n 0 in (rw same at all)

-- Behind an empty chunk there is nothing.
beyond_last : (file : List ℕ) (n : ℕ) → length (chunk file (n - 1)) ≡ 0 → drop (512 * n) file ≡ []
beyond_last file n empty = length-zero (drop (512 * n) file) (
    omega (
      arith,
      empty,
      length-take 512 (drop (512 * (n - 1)) file),
      length-drop (512 * (n - 1)) file,
      length-drop (512 * n) file,
    ))

-- What the receiver has written is the start of the file, and all of it once the sender has exited.
pub record IsTransfer (file : List ℕ) (w : System) : Type 0 where
  pub missing : List ℕ
  pub started : w.output ++ missing ≡ file
  pub completed : w.exited ≡ true → w.output ≡ file

-- For every file, with a link without delay, whatever its rates of loss, cutting and corruption, and
-- different addresses: for every sequence of turns, of datagrams that reach the next program, each way
-- in order, and of losses on any way, no program fails to return, and the output of the receiver
-- is the start of the file that the sender reads; when the sender has exited, it is the whole file.
pub run-IsTransfer :
    (file : List ℕ) (crc32 : List ℕ → ℕ) (junk : ℕ) (settings : Settings)
    (sender_addr receiver_addr : SockaddrIn6)
    → settings.delay ≡ 0
    → sockaddr_cmp sender_addr receiver_addr ≡ true
    → (events : List Event) (proxy : Proxy) → proxy.dest_addr ≡ receiver_addr
    → proxy.has_source_addr ≡ false
    → Yields
        (IsTransfer file)
        (run (chunk file) crc32 junk settings sender_addr receiver_addr events (launch proxy))
run-IsTransfer file crc32 junk settings sender_addr receiver_addr undelayed apart events proxy host
      unknown =
    Yields-map
      (run-IsDelivering (chunk file) crc32 junk settings sender_addr receiver_addr
        (chunk_short file) undelayed apart events proxy host unknown)
      λ w d. record {
        missing = drop (512 * d.n) file;
        started = rw d.output_eq (segment-start file d.n);
        completed = λ done.
            let (all, some_read, empty) = d.all_read done in
            let none_left = beyond_last file w.taken empty in
            let whole = segment-start file w.taken in
            rw (d.output_eq, all)
              (sym (append-nil (segment (chunk file) w.taken 0)) ∙ (rw none_left at whole));
      }
