-- ===== src/Net/Serving.antt =====
-- What the servers have done when they end: the address they served, and what they did there.
use c_examples.Base.{ℕ, ◌≡◌, refl, ap, sym, ◌∙◌, Bool, Option, some, List, [], ◌∷◌}
use c_examples.Base.Run.{Run, returns, ◌>>=◌, >>=-eq-returns}
use c_examples.Cli.Strto.{Str}
use c_examples.Cli.Numbers
use c_examples.Cli.Getopt.{CommandLine, operands}
use mathlib.Core.Path.{subst}
use c_examples.Base.{some-cancel}
use c_examples.Net.Address.{Family, SocketType, SockaddrStorage, System, IsOrdered}
use c_examples.Net.Sockets.{Socket, fresh, socket_bind}
use c_examples.Net.Names.{Converted, Named, socket_bind-Bound}
use c_examples.Net.Setup.{
  open_socket, open_socket-eq-returns, IsParsed, IsParsed-operands, parse_in_port_t_small,
}

-- A socket of a type, bound to the address and the port that the two operands name, and of the
-- family of this address.
abbrev pub BoundTo : System → SocketType → List Str → Socket → Type 0
BoundTo sys type (address ∷ port_str ∷ []) s =
    (port : ℕ) × (name : SockaddrStorage × ℕ) × (Numbers.parse_in_port_t port_str ≡ returns port)
    × (s.name ≡ some name)
    × Named sys address port name
    × (s.domain ≡ name.0.ss_family)
    × (s.type ≡ type)
BoundTo sys type _ s = ⊥

abbrev pub fresh_with : Bool → ℕ → Family → SocketType → Socket
fresh_with reuse fd domain type = record (fresh fd domain type) { reuse = reuse }

module _ (sys : System) (order : IsOrdered sys) where
  pub socket_bind-BoundTo :
      (s : Socket) (addr : SockaddrStorage) (address port_str : Str) (port : ℕ) {t : Socket}
      → Numbers.parse_in_port_t port_str ≡ returns port
      → Converted sys address addr
      → s.domain ≡ addr.ss_family
      → socket_bind sys s addr port ≡ returns t
      → BoundTo sys s.type (address ∷ port_str ∷ []) t × (t.reuse ≡ s.reuse)
  socket_bind-BoundTo s addr address port_str port {t} number converted same_family e =
      let small = parse_in_port_t_small port_str port number in
      let (name, addr_str, is, named, family) =
        socket_bind-Bound sys order address port small s addr converted e in
      (
        (
          port,
          name,
          number,
          ap (λ t. t.name) is,
          named,
          ap (λ t. t.domain) is ∙ same_family ∙ sym family,
          ap (λ t. t.type) is,
        ),
        ap (λ t. t.reuse) is,
      )

  -- A program that binds the socket it has created, when a step that leaves its family and its type
  -- as they are has been taken with it.
  pub bound_socket :
      {R : Type 0} (a : CommandLine) (arguments : Run (Option Str × ℕ)) (type : SocketType)
      (prepare : Socket → Run Socket) (reuse : Bool) (then : Socket → Run R) {r : R}
      → IsParsed a arguments
      → ((fd : ℕ) (domain : Family) (t : Socket)
          → prepare (fresh fd domain type) ≡ returns t
          → t ≡ fresh_with reuse fd domain type)
      → open_socket sys type arguments
          (λ s addr port. prepare s >>= λ s. socket_bind sys s addr port >>= then)
        ≡ returns r
      → (s : Socket) × BoundTo sys type (operands a) s × (s.reuse ≡ reuse) × (then s ≡ returns r)
  bound_socket a arguments type prepare reuse then parsed prepared e =
      let (address, port, addr, s, got, converted, created, e) =
        open_socket-eq-returns sys type arguments _ e in
      let (address2, port_str, split, same, number) =
        IsParsed-operands a arguments parsed _ port got in
      let (u, made, e) = >>=-eq-returns (prepare s) _ e in
      let (t, bind, e) = >>=-eq-returns (socket_bind sys u addr port) then e in
      let start = fresh_with reuse s.sockfd addr.ss_family type in
      let is : u ≡ start =
        prepared s.sockfd addr.ss_family u (subst (λ s. prepare s ≡ returns u) created made) in
      let bind : socket_bind sys start addr port ≡ returns t =
        subst (λ s. socket_bind sys s addr port ≡ returns t) is bind in
      let (there, kept) =
        socket_bind-BoundTo start addr address port_str port number converted refl bind in
      let operands_are = ap (λ x. x ∷ port_str ∷ []) (some-cancel same) ∙ sym split in
      (t, subst (λ l. BoundTo sys type l t) operands_are there, kept, e)
