-- ===== src/Net/Sent.antt =====
-- udp/sendto-recvfrom/client.c, from the command line to the end.
use c_examples.Base.{ℕ, ◌<◌, ◌≡◌, refl, ap, sym, ◌∙◌, Option, none, some, List, [], ◌∷◌, ◌++◌, ◌^◌}
use c_examples.Base.Run.{
  Run, returns, exits, failure, ◌>>=◌, >>=-eq-returns, or_exit, returns-injective,
}
use mathlib.Core.Path.{subst}
use c_examples.Cli.Strto.{Str}
use c_examples.Cli.Numbers
use c_examples.Cli.Getopt.{CommandLine, IsScanned, operands, stops}
use c_examples.Cli.UdpClient as CliClient
use c_examples.Cli.UdpClient.{udp_client-arguments, expected}
use c_examples.Net.Address.{
  af_inet, af_inet6, sock_dgram, SockaddrStorage, System, IsOrdered, given,
}
use c_examples.Net.Sockets.{socket_create}
use c_examples.Net.Names.{Named, inet, inet6}
use c_examples.Net.Setup.{parse_in_port_t_small}
use c_examples.Net.UdpClient as Client
use c_examples.Net.UdpClient.{Sending}
use c_examples.Serial.Effects.{World, Log, socket_close}

expected-eq-returns :
    (l : List Str) {o m : Option Str} {port : ℕ}
    → expected l ≡ returns (o, m, port)
    → (address port_str message : Str) × (l ≡ address ∷ port_str ∷ message ∷ [])
      × (o ≡ some address)
      × (m ≡ some message)
      × (Numbers.parse_in_port_t port_str ≡ returns port)
unfolding CliClient.parse_in_port_t
expected-eq-returns [] e = absurd (cc e)
expected-eq-returns (x ∷ []) e = absurd (cc e)
expected-eq-returns (x ∷ y ∷ []) e = absurd (cc e)
expected-eq-returns (x ∷ y ∷ z ∷ []) e =
    let (n, parsed, k) = >>=-eq-returns (Numbers.parse_in_port_t y) _ e in
    let is = returns-injective k in
    (
      x,
      y,
      z,
      refl,
      ap (λ r. r.0) is,
      ap (λ r. r.1) is,
      parsed ∙ ap returns (sym (ap (λ r. r.2) is)),
    )
expected-eq-returns (x ∷ y ∷ z ∷ w ∷ l) e = absurd (cc e)

-- `convert_address` and then `get_address_to_server`.
get_address_to_server-Named :
    (sys : System) (order : IsOrdered sys) (address : Str) (port : ℕ) (addr : SockaddrStorage)
    (addr_len : ℕ)
    → port < 2 ^ 16
    → Client.convert_address sys address ≡ returns (addr, addr_len)
    → Named sys address port (Client.get_address_to_server sys addr port, addr_len)
unfolding Client.convert_address Client.get_address_to_server
get_address_to_server-Named sys order address port addr addr_len small e =
    by_results (sys.inet_pton af_inet address) (sys.inet_pton af_inet6 address) refl refl e
  where
    at_once :
        (a : SockaddrStorage) (n : ℕ)
        → ◌≡◌ {A = SockaddrStorage × ℕ} (a, n) (addr, addr_len)
        → Named sys address port (Client.get_address_to_server sys a port, n)
        → Named sys address port (Client.get_address_to_server sys addr port, addr_len)
    at_once a n is h =
        subst (λ p. Named sys address port (Client.get_address_to_server sys p.0 port, p.1)) is h

    by_results :
        (ipv4 ipv6 : Option (List ℕ))
        → sys.inet_pton af_inet address ≡ ipv4
        → sys.inet_pton af_inet6 address ≡ ipv6
        → ◌≡◌ {A = Run (SockaddrStorage × ℕ)}
            (elim ipv4 [
              | some bytes ↦ returns (inet bytes, 16)
              | none ↦ elim ipv6 [ some bytes ↦ returns (inet6 bytes, 28) | none ↦ exits failure ]
            ])
            (returns (addr, addr_len))
        → Named sys address port (Client.get_address_to_server sys addr port, addr_len)
    by_results (some bytes) ipv6 h k e =
        at_once (inet bytes) 16 (sym (returns-injective e)) (h, refl, order port small)
    by_results none (some bytes) h k e =
        at_once (inet6 bytes) 28 (sym (returns-injective e)) (k, refl, order port small)
    by_results none none h k e = absurd (cc e)

-- `main` of the client behind the command line.
abbrev from_address :
    System → World → (Sending → Option ℕ) → Option Str → Option Str → ℕ → Run (Sending × ℕ × Log)
from_address sys v sendto o m port = given o >>= λ address.
    Client.convert_address sys address >>= λ (addr, addr_len).
    socket_create sys addr.ss_family sock_dgram >>= λ s. given m >>= λ message.
    let sending : Sending = record {
      from = s.sockfd;
      datagram = message ++ 0 ∷ [];
      to = (Client.get_address_to_server sys addr port, addr_len);
    } in
    or_exit (sendto sending) >>= λ bytes_sent.
    socket_close v s.sockfd [] >>= λ log. returns (sending, bytes_sent, log)

module _ (sys : System) (v : World) (order : IsOrdered sys) (a : CommandLine)
    (scanned : IsScanned a) where
  module _ (sendto : Sending → Option ℕ) where
    sends :
        (address message : Str) (port : ℕ) (sending : Sending) (n : ℕ) (log : Log)
        → port < 2 ^ 16
        → from_address sys v sendto (some address) (some message) port ≡ returns (sending, n, log)
        → (sending.datagram ≡ message ++ 0 ∷ []) × Named sys address port sending.to
    sends address message port sending n log small e =
        let ((addr, addr_len), converted, e) =
          >>=-eq-returns (Client.convert_address sys address) _ e in
        let (s, made, e) = >>=-eq-returns (socket_create sys addr.ss_family sock_dgram) _ e in
        let (bytes_sent, sent, e) = >>=-eq-returns (or_exit (sendto _)) _ e in
        let (log2, shut, e) = >>=-eq-returns (socket_close v s.sockfd []) _ e in
        let is = returns-injective e in
        (
          ap (λ r. r.0.datagram) is,
          subst (λ r. Named sys address port r.0.to) (sym is)
              (get_address_to_server-Named sys order address port addr addr_len small converted),
        )

    -- Where `ntohs` undoes `htons` and `optind` is at most `argc`: whenever udp/sendto-
    -- recvfrom/client.c returns, it had three operands, an address, a port and a message, and it has
    -- sent the message with its NUL to exactly this address and port, with the length of the family
    -- of the address.
    pub udp_client-sends :
        (sending : Sending) (n : ℕ) (log : Log)
        → Client.main sys v sendto a ≡ returns (sending, n, log)
        → (address port_str message : Str) × (port : ℕ) × (operands a
            ≡ address ∷ port_str ∷ message ∷ [])
          × (Numbers.parse_in_port_t port_str ≡ returns port)
          × Named sys address port sending.to
          × (sending.datagram ≡ message ++ 0 ∷ [])
    unfolding Client.main Client.socket_create Client.socket_close
    udp_client-sends sending n log e =
        let ((o, m, port), got, e) =
          >>=-eq-returns (CliClient.arguments a)
            (λ (o, m, port). from_address sys v sendto o m port) e in
        let (u, h, k) =
          >>=-eq-returns (stops [] a.opts) (λ _. expected (operands a))
            (sym (udp_client-arguments a scanned) ∙ got) in
        let (address, port_str, message, split, is_o, is_m, number) =
          expected-eq-returns (operands a) k in
        let e =
          subst (λ o. from_address sys v sendto o m port ≡ returns (sending, n, log)) is_o e in
        let e =
          subst (λ m. from_address sys v sendto (some address) m port ≡ returns (sending, n, log))
            is_m e in
        let small = parse_in_port_t_small port_str port number in
        let (datagram, named) = sends address message port sending n log small e in
        (address, port_str, message, port, split, number, named, datagram)
