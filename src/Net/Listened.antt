-- ===== src/Net/Listened.antt =====
-- The server networking-functions/listen-accept/main.c, from the command line to its end.
use c_examples.Base.{
  ℕ, ◌≡◌, refl, ap, sym, ◌∙◌, true, false, Option, none, some, List, [], ◌∷◌, ◌++◌, map,
}
use c_examples.Base.Run.{Run, returns, ◌>>=◌, ◌>>◌, >>=-eq-returns, returns-injective}
use c_examples.Cli.Strto.{Str, ℤ}
use c_examples.Cli.Numbers
use c_examples.Cli.Getopt.{CommandLine, IsScanned, operands, stops, last_arg, opt_b}
use c_examples.Cli.ListenAccept as CliListen
use c_examples.Cli.ListenAccept.{listen_accept-arguments, expected}
use mathlib.Core.Path.{subst}
use c_examples.Net.Address.{sock_stream, System, IsOrdered, given, convert_address}
use c_examples.Net.Sockets.{
  Socket, fresh, socket_create, socket_bind, start_listening, setup_signal_handler,
}
use c_examples.Net.Names.{convert_address-Converted, socket_create-Fresh}
use c_examples.Net.Serving.{socket_bind-BoundTo}
use c_examples.Net.Served.{ListensAt, listens_then_serves, when_ok-eq-returns}
use c_examples.Net.ListenAccept
use c_examples.Serial.Effects.{World, Log, written, closed}
use c_examples.Serial.Loop.{Accept, effects}
use c_examples.Serial.Servers.{listen_main}
use c_examples.Serial.Runs.{listen_main-when_ok}

expected-eq-returns :
    (b : Option Str) (l : List Str) {o m : Option Str} {port : ℕ} {backlog : ℤ}
    → expected b l ≡ returns (o, m, port, backlog)
    → (backlog_str address port_str message : Str) × (b ≡ some backlog_str)
      × (l ≡ address ∷ port_str ∷ message ∷ [])
      × (o ≡ some address)
      × (m ≡ some message)
      × (Numbers.parse_in_port_t port_str ≡ returns port)
      × (Numbers.parse_positive_int backlog_str ≡ returns backlog)
unfolding CliListen.parse_in_port_t
expected-eq-returns none l e = absurd (cc e)
expected-eq-returns (some b) [] e = absurd (cc e)
expected-eq-returns (some b) (x ∷ []) e = absurd (cc e)
expected-eq-returns (some b) (x ∷ y ∷ []) e = absurd (cc e)
expected-eq-returns (some b) (x ∷ y ∷ z ∷ []) e =
    let ((port, backlog), both, k) = >>=-eq-returns _ _ e in
    let (port2, parsed, both) = >>=-eq-returns (Numbers.parse_in_port_t y) _ both in
    let (backlog2, parsed2, both) = >>=-eq-returns (Numbers.parse_positive_int b) _ both in
    let is = returns-injective k in
    let pair = returns-injective both in
    (
      b,
      x,
      y,
      z,
      refl,
      refl,
      ap (λ r. r.0) is,
      ap (λ r. r.1) is,
      parsed ∙ ap returns (sym (ap (λ r. r.2) is ∙ ap (λ r. r.0) pair)),
      parsed2 ∙ ap returns (sym (ap (λ r. r.3) is ∙ ap (λ r. r.1) pair)),
    )
expected-eq-returns (some b) (x ∷ y ∷ z ∷ w ∷ l) e = absurd (cc e)

-- `main` behind the command line.
abbrev from_address :
    System → World → List Accept → Option Str → Option Str → ℕ → ℤ → Run (Socket × Log)
from_address sys v rounds o m port backlog = given o >>= λ address.
    convert_address sys address >>= λ addr. socket_create sys addr.ss_family sock_stream >>= λ s.
    socket_bind sys s addr port >>= λ s. start_listening sys s backlog >>= λ s.
    setup_signal_handler sys
    >> (given m >>= λ message. listen_main v message s.sockfd rounds >>= λ log. returns (s, log))

module _ (sys : System) (v : World) (order : IsOrdered sys)
    (closing : (fd : ℕ) → v.closes fd ≡ true) (a : CommandLine) (scanned : IsScanned a)
    (rounds : List Accept) where
  behind_arguments :
      (address port_str message : Str) (port : ℕ) (backlog : ℤ) (s : Socket) (log : Log)
      → Numbers.parse_in_port_t port_str ≡ returns port
      → from_address sys v rounds (some address) (some message) port backlog ≡ returns (s, log)
      → ListensAt sys backlog false (address ∷ port_str ∷ []) s
        × (log
            ≡ effects (λ fd es. map (written fd) message ++ closed fd ∷ []) rounds
              ++ closed s.sockfd ∷ [])
  behind_arguments address port_str message port backlog s log number e =
      let (addr, converted, e) = >>=-eq-returns (convert_address sys address) _ e in
      let (t, made, e) = >>=-eq-returns (socket_create sys addr.ss_family sock_stream) _ e in
      let (u, bind, e) = >>=-eq-returns (socket_bind sys t addr port) _ e in
      let start = fresh t.sockfd addr.ss_family sock_stream in
      let is = socket_create-Fresh sys addr.ss_family sock_stream t made in
      let converted = convert_address-Converted sys address addr converted in
      let (there, reuse) =
        socket_bind-BoundTo sys order start addr address port_str port number converted refl
          (subst (λ t. socket_bind sys t addr port ≡ returns u) is bind) in
      let (there, served) =
        listens_then_serves sys backlog (address ∷ port_str ∷ []) u
          (λ fd. listen_main v message fd rounds) there e in
      (
        subst (λ reuse. ListensAt sys backlog reuse (address ∷ port_str ∷ []) s) reuse there,
        when_ok-eq-returns _ _ log
            (sym (listen_main-when_ok v closing message s.sockfd rounds) ∙ served),
      )

  -- Where `close` succeeds, `ntohs` undoes `htons` and `optind` is at most `argc`: whenever
  -- networking-functions/listen-accept returns, it had -b with a number that `parse_positive_int`
  -- accepts and three operands, its socket, of the family of the address, was bound to exactly the
  -- first two and listened with this backlog; and the third has been written to each client, byte
  -- by byte, before it was closed.
  pub listen_main-ListensAt :
      (s : Socket) (log : Log)
      → ListenAccept.main sys v a rounds ≡ returns (s, log)
      → (backlog_str address port_str message : Str) × (backlog : ℤ) × (last_arg opt_b a.opts none
          ≡ some backlog_str)
        × (operands a ≡ address ∷ port_str ∷ message ∷ [])
        × (Numbers.parse_positive_int backlog_str ≡ returns backlog)
        × ListensAt sys backlog false (address ∷ port_str ∷ []) s
        × (log
            ≡ effects (λ fd es. map (written fd) message ++ closed fd ∷ []) rounds
              ++ closed s.sockfd ∷ [])
  unfolding ListenAccept.main ListenAccept.convert_address ListenAccept.socket_create
      ListenAccept.socket_bind ListenAccept.start_listening ListenAccept.setup_signal_handler
  listen_main-ListensAt s log e =
      let ((o, m, port, backlog), got, e) =
        >>=-eq-returns (CliListen.arguments a)
          (λ (o, m, port, backlog). from_address sys v rounds o m port backlog) e in
      let (u, h, k) =
        >>=-eq-returns (stops (opt_b ∷ []) a.opts)
          (λ _. expected (last_arg opt_b a.opts none) (operands a))
          (sym (listen_accept-arguments a scanned) ∙ got) in
      let (backlog_str, address, port_str, message, has_b, split, is_o, is_m, number, number2) =
        expected-eq-returns (last_arg opt_b a.opts none) (operands a) k in
      let e = subst (λ o. from_address sys v rounds o m port backlog ≡ returns (s, log)) is_o e in
      let e =
        subst (λ m. from_address sys v rounds (some address) m port backlog ≡ returns (s, log)) is_m
          e in
      let (there, served) = behind_arguments address port_str message port backlog s log number e in
      (backlog_str, address, port_str, message, backlog, has_b, split, number2, there, served)
