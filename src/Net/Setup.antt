-- ===== src/Net/Setup.antt =====
-- The beginning of `main` in the programs with an internet socket.
use c_examples.Base.{
  ℕ, ◌<◌, ◌^◌, ◌≡◌, refl, ap, sym, ◌∙◌, Bool, Option, none, some, List, [], ◌∷◌, arith, not, ltb,
  ◌-◌,
}
use c_examples.Base.Run.{
  Run, returns, ◌>>=◌, ◌>>◌, >>=-eq-returns, returns-injective, Finishes, Finishes-then,
}
use c_examples.Cli.Strto.{Str, Conversion, strtoumax}
use c_examples.Cli.Numbers
use c_examples.Cli.Numbers.{checked}
use c_examples.Cli.Getopt.{CommandLine, opt_h, letter, Opt, operands, stops}
use c_examples.Cli.TcpServer
use c_examples.Cli.TcpServer.{expected}
use c_examples.Net.Address.{SocketType, SockaddrStorage, System, given, convert_address}
use c_examples.Net.Sockets.{Socket, fresh, socket_create}
use c_examples.Net.Names.{
  Converted, convert_address-Converted, convert_address-Finishes, socket_create-Fresh,
  socket_create-Finishes,
}
use native.Mathlib.Nat.{mod-lt}
use mathlib.Core.Path.{subst}

given-eq-returns : (o : Option Str) {s : Str} → given o ≡ returns s → o ≡ some s
given-eq-returns none e = absurd (cc e)
given-eq-returns (some t) e = ap some (sym (returns-injective e))

module _ {ℓ} {R : Type ℓ} (sys : System) (type : SocketType) where
  -- From the command line to the socket: `handle_arguments`, `convert_address` and `socket_create`.
  unfoldable pub open_socket : Run (Option Str × ℕ) → (Socket → SockaddrStorage → ℕ → Run R) → Run R
  open_socket arguments then = arguments >>= λ (address, port). given address >>= λ address.
      convert_address sys address >>= λ addr.
      socket_create sys addr.ss_family type >>= λ s. then s addr port

  pub open_socket-eq-returns :
      (arguments : Run (Option Str × ℕ)) (then : Socket → SockaddrStorage → ℕ → Run R) {r : R}
      → open_socket arguments then ≡ returns r
      → (address : Str) × (port : ℕ) × (addr : SockaddrStorage) × (s : Socket) × (arguments
          ≡ returns (some address, port))
        × Converted sys address addr
        × (s ≡ fresh s.sockfd addr.ss_family type)
        × (then s addr port ≡ returns r)
  unfolding open_socket
  open_socket-eq-returns arguments then e =
      let ((o, port), parsed, e) = >>=-eq-returns arguments _ e in
      let (address, present, e) = >>=-eq-returns (given o) _ e in
      let (addr, converted, e) = >>=-eq-returns (convert_address sys address) _ e in
      let (s, created, e) = >>=-eq-returns (socket_create sys addr.ss_family type) _ e in
      (
        address,
        port,
        addr,
        s,
        parsed ∙ ap (λ o. returns (o, port)) (given-eq-returns o present),
        convert_address-Converted sys address addr converted,
        socket_create-Fresh sys addr.ss_family type s created,
        e,
      )

-- What `parse_in_port_t` returns fits in 16 bits.
pub parse_in_port_t_small : (s : Str) (n : ℕ) → Numbers.parse_in_port_t s ≡ returns n → n < 2 ^ 16
unfolding Numbers.parse_in_port_t
parse_in_port_t_small s n e =
    let (v, h, k) = >>=-eq-returns (checked (λ v. not (ltb (2 ^ 16 - 1) v)) (strtoumax s)) _ e in
    subst (λ n. n < 2 ^ 16) (sym (returns-injective k)) (mod-lt v (omega arith))

-- What the command line of a program with an address and a port comes to.
abbrev pub IsParsed : CommandLine → Run (Option Str × ℕ) → Type 0
IsParsed a arguments = arguments ≡ (stops [] a.opts >> expected (operands a))

stops-Finishes : (os : List Opt) → Finishes (stops [] os)
stops-Finishes [] = tt
stops-Finishes (letter opt_h optarg ∷ os) = tt
stops-Finishes (o ∷ os) = tt

checked-Finishes : {A : Type 0} (f : A → Bool) (c : Conversion A) → Finishes (checked f c)
checked-Finishes f c = ground arith

parse_in_port_t-Finishes : (s : Str) → Finishes (Numbers.parse_in_port_t s)
unfolding Numbers.parse_in_port_t
parse_in_port_t-Finishes s =
    Finishes-then (checked (λ v. not (ltb (2 ^ 16 - 1) v)) (strtoumax s)) _
      (checked-Finishes {A = ℕ} (λ v. not (ltb (2 ^ 16 - 1) v)) (strtoumax s)) (λ n e. tt)

expected-Finishes : (l : List Str) → Finishes (expected l)
unfolding TcpServer.parse_in_port_t
expected-Finishes [] = tt
expected-Finishes (x ∷ []) = tt
expected-Finishes (x ∷ y ∷ []) =
    Finishes-then (Numbers.parse_in_port_t y) _ (parse_in_port_t-Finishes y) (λ n e. tt)
expected-Finishes (x ∷ y ∷ z ∷ l) = tt

-- Two operands, the second one a port.
expected-eq-returns :
    (l : List Str) {o : Option Str} {port : ℕ}
    → expected l ≡ returns (o, port)
    → (address port_str : Str) × (l ≡ address ∷ port_str ∷ [])
      × (o ≡ some address)
      × (Numbers.parse_in_port_t port_str ≡ returns port)
unfolding TcpServer.parse_in_port_t
expected-eq-returns [] e = absurd (cc e)
expected-eq-returns (x ∷ []) e = absurd (cc e)
expected-eq-returns (x ∷ y ∷ []) e =
    let (n, parsed, k) = >>=-eq-returns (Numbers.parse_in_port_t y) _ e in
    let same = returns-injective k in
    (x, y, refl, ap (λ r. r.0) same, parsed ∙ ap returns (sym (ap (λ r. r.1) same)))
expected-eq-returns (x ∷ y ∷ z ∷ l) e = absurd (cc e)

module _ (a : CommandLine) (arguments : Run (Option Str × ℕ)) (parsed : IsParsed a arguments) where
  pub IsParsed-operands :
      (o : Option Str) (port : ℕ)
      → arguments ≡ returns (o, port)
      → (address port_str : Str) × (operands a ≡ address ∷ port_str ∷ [])
        × (o ≡ some address)
        × (Numbers.parse_in_port_t port_str ≡ returns port)
  IsParsed-operands o port e =
      let (u, h, k) =
        >>=-eq-returns (stops [] a.opts) (λ _. expected (operands a)) (sym parsed ∙ e) in
      expected-eq-returns (operands a) k

  IsParsed-Finishes : Finishes arguments
  IsParsed-Finishes = subst Finishes (sym parsed) (
      Finishes-then (stops [] a.opts) _ (stops-Finishes a.opts)
        (λ _ _. expected-Finishes (operands a)))

  -- No address is missing, and so nothing undefined is done.
  pub open_socket-Finishes {ℓ} :
      {R : Type ℓ} (sys : System) (type : SocketType) (then : Socket → SockaddrStorage → ℕ → Run R)
      → ((s : Socket) (addr : SockaddrStorage) (port : ℕ) → Finishes (then s addr port))
      → Finishes (open_socket sys type arguments then)
  unfolding open_socket
  open_socket-Finishes sys type then finishes =
      Finishes-then arguments _ IsParsed-Finishes (λ (o, port) e.
        let (address, port_str, h, present, k) = IsParsed-operands o port e in
        rw present (
          Finishes-then (convert_address sys address) _ (convert_address-Finishes sys address)
            (λ addr _.
              Finishes-then (socket_create sys addr.ss_family type) _
                (socket_create-Finishes sys addr.ss_family type) (λ s _. finishes s addr port))))
