-- ===== src/Net/Datagram.antt =====
-- udp/sendto-recvfrom/client.c, against udp/sendto-recvfrom/server.c.
use c_examples.Base.{
  ℕ, zero, suc, ◌+◌, ◌≤◌, ◌<◌, ◌≡◌, refl, ap, sym, ◌∙◌, min, false, ◌-◌, Option, some, some-cancel,
  List, [], ◌∷◌, ◌++◌, length, take, length-take, length-append, arith, c_string, NoNul,
}
use c_examples.Base.Run.{returns, >>=-eq-returns, or_exit, or_exit-eq-returns, returns-injective}
use mathlib.Core.Path.{subst}
use c_examples.Cli.Strto.{Str}
use c_examples.Cli.Getopt.{CommandLine, IsScanned, operands}
use c_examples.Cli.TcpServer
use c_examples.Cli.TcpServer.{tcp_server-arguments}
use c_examples.Net.Address.{sock_dgram, System, IsOrdered}
use c_examples.Net.Sockets.{Socket}
use c_examples.Net.Setup.{open_socket}
use c_examples.Net.Serving.{BoundTo, bound_socket}
use c_examples.Net.UdpClient as Client
use c_examples.Net.UdpClient.{Sending}
use c_examples.Net.UdpServer as Server
use c_examples.Net.UdpServer.{Packet, cap, handle_packet, clamped}
use c_examples.Net.Sent.{udp_client-sends}
use c_examples.Serial.Effects.{World, Log, socket_close}

c_string-take :
    (m : List ℕ) (k : ℕ) → NoNul m → c_string (take k (m ++ 0 ∷ []) ++ 0 ∷ []) ≡ take k m
c_string-take [] zero h = refl
c_string-take [] (suc k) h = refl
c_string-take (c ∷ m) zero h = refl
c_string-take (zero ∷ m) (suc k) (h, g) = absurd (omega arith)
c_string-take (suc c ∷ m) (suc k) (h, g) = ap (◌∷◌ (suc c)) (c_string-take m k g)

take_all : {A : Type 0} (l : List A) (k : ℕ) → length l ≤ k → take k l ≡ l
take_all [] zero h = refl
take_all [] (suc k) h = refl
take_all (x ∷ l) zero h = elim h [ ]
take_all (x ∷ l) (suc k) h = ap (◌∷◌ x) (take_all l k (omega arith))

clamped-eq : (n : ℕ) → n < 1025 → clamped n ≡ n
unfolding clamped
clamped-eq n h = ground arith

-- The packet that a text comes to, of which `size` bytes arrive at most.
abbrev pub shown_text : ℕ → List ℕ → ℕ → Packet
shown_text size message fd = record {
  client_sockfd = fd;
  bytes = min size (length message + 1);
  text = take size message;
}

-- What the server shows of a datagram that holds a text with its NUL, of which `size` bytes arrive.
shown :
    (message : List ℕ) (fd size : ℕ)
    → NoNul message
    → size < 1025
    → (received : List ℕ) → received ≡ take size (message ++ 0 ∷ [])
    → handle_packet fd (take (clamped (length received)) received ++ 0 ∷ []) (length received)
      ≡ shown_text size message fd
unfolding handle_packet
shown message fd size h small received is =
    let count : length received ≡ min size (length message + 1) =
      ap length is
      ∙ length-take size (message ++ 0 ∷ [])
      ∙ ap (min size) (length-append message (0 ∷ [])) in
    let whole : take (clamped (length received)) received ≡ received =
      rw (clamped-eq (length received) (omega (arith, count)))
        (take_all received (length received) (omega arith)) in
    rw (whole, count, is, c_string-take message size h) refl

module _ (sys : System) (v : World) (order : IsOrdered sys) (a : CommandLine)
    (scanned : IsScanned a) where
  module _ (recvfrom : ℕ → ℕ → Option (List ℕ)) where
    -- The server shows at most 1024 characters of a text, and is bound to what its operands name.
    pub udp_server-shows :
        (s : Socket) (packet : Packet) (log : Log) (message : List ℕ)
        → NoNul message
        → ((fd size : ℕ) → recvfrom fd size ≡ some (take size (message ++ 0 ∷ [])))
        → Server.main sys v recvfrom a ≡ returns (s, packet, log)
        → BoundTo sys sock_dgram (operands a) s × (packet ≡ shown_text (cap - 1) message s.sockfd)
    unfolding Server.main Server.arguments Server.convert_address Server.socket_create
        Server.socket_bind Server.socket_close open_socket
    udp_server-shows s packet log message h arrives e =
        let (t, there, reuse, e) =
          bound_socket sys order a (TcpServer.arguments a) sock_dgram returns false _
            (tcp_server-arguments a scanned) (λ fd domain t e. returns-injective e) e in
        let (received, got, e) = >>=-eq-returns (or_exit (recvfrom t.sockfd (cap - 1))) _ e in
        let (log2, shut, e) = >>=-eq-returns (socket_close v t.sockfd []) _ e in
        let is = returns-injective e in
        let same = ap (λ r. r.0) is in
        let is_text : received ≡ take (cap - 1) (message ++ 0 ∷ []) = some-cancel (
          sym (or_exit-eq-returns (recvfrom t.sockfd (cap - 1)) got)
          ∙ arrives t.sockfd (cap - 1)) in
        (
          subst (BoundTo sys sock_dgram (operands a)) (sym same) there,
          ap (λ r. r.1) is
              ∙ shown message t.sockfd (cap - 1) h (omega arith) received is_text
              ∙ ap (λ s. shown_text (cap - 1) message s.sockfd) (sym same),
        )

-- Where `ntohs` undoes `htons` and `optind` is at most `argc`: if udp/sendto-recvfrom/client.c
-- returns, given a message without NUL, and its datagram arrives at udp/sendto-recvfrom/server.c,
-- cut to the room in the buffer, then the server, if it returns, shows the first 1024 characters
-- of the message, and the number of bytes that arrived, the NUL among them.
pub datagram_shown :
    (sys sys2 : System) (v v2 : World) (order : IsOrdered sys) (order2 : IsOrdered sys2)
    (a b : CommandLine) (scanned : IsScanned a) (scanned2 : IsScanned b)
    (sendto : Sending → Option ℕ) (recvfrom : ℕ → ℕ → Option (List ℕ)) (address port_str : Str)
    (message : List ℕ) (sending : Sending) (n : ℕ) (log log2 : Log) (s : Socket) (packet : Packet)
    → operands a ≡ address ∷ port_str ∷ message ∷ []
    → NoNul message
    → ((fd size : ℕ) → recvfrom fd size ≡ some (take size sending.datagram))
    → Client.main sys v sendto a ≡ returns (sending, n, log)
    → Server.main sys2 v2 recvfrom b ≡ returns (s, packet, log2)
    → packet ≡ shown_text (cap - 1) message s.sockfd
datagram_shown sys sys2 v v2 order order2 a b scanned scanned2 sendto recvfrom address port_str
      message sending n log log2 s packet split h arrives sends shows =
    let (address2, port_str2, message2, port, split2, number, named, datagram) =
      udp_client-sends sys v order a scanned sendto sending n log sends in
    let same : message2 ≡ message = cc (split, split2) in
    let datagram = datagram ∙ ap (λ m. m ++ 0 ∷ []) same in
    let (there, shown) =
      udp_server-shows sys2 v2 order2 b scanned2 recvfrom s packet log2 message h
        (λ fd size. arrives fd size ∙ ap (λ d. some (take size d)) datagram) shows in
    shown
