-- ===== src/Net/Created.antt =====
-- networking-functions/socket/main.c and sockets/getsockopt/main.c, from the command line to the end.
use c_examples.Base.{
  ℕ, ◌≡◌, refl, ap, sym, ◌∙◌, ◌⊎◌, inl, inr, Bool, true, false, ◌==◌, ◌&&◌, ==_iff, if◌then◌else◌,
  Option, none, some, List, [], ◌∷◌, map, arith,
}
use c_examples.Base.Run.{Run, returns, >>=-eq-returns, require-eq-returns, returns-injective}
use mathlib.Core.Path.{subst}
use c_examples.Cli.Strto.{Str}
use c_examples.Cli.Getopt.{CommandLine, IsScanned, operands, stops}
use c_examples.Cli.TcpServer
use c_examples.Cli.TcpServer.{tcp_server-arguments}
use c_examples.Cli.Socket as CliSocket
use c_examples.Cli.Socket.{
  strings_equal, string_to_address_family, string_to_socket_type, af_inet_str, af_inet6_str,
  af_unix_str, sock_stream_str, sock_dgram_str, sock_raw_str, sock_seqpacket_str, socket-arguments,
  expected,
}
use c_examples.Net.Address.{
  Family, af_unspec, af_inet, af_inet6, af_unix, SocketType, sock_stream, sock_dgram, sock_raw,
  sock_seqpacket, System, IsOrdered,
}
use c_examples.Net.Sockets.{Socket, socket_create}
use c_examples.Net.Names.{socket_create-Fresh}
use c_examples.Net.Setup.{open_socket}
use c_examples.Net.Serving.{BoundTo, bound_socket}
use c_examples.Net.SocketProgram
use c_examples.Net.GetSockopt
use c_examples.Net.GetSockopt.{
  OptionName, so_acceptconn, so_broadcast, so_debug, so_dontroute, so_error, so_keepalive,
  so_linger, so_oobinline, so_rcvbuf, so_rcvlowat, so_rcvtimeo, so_reuseaddr, so_sndbuf,
  so_sndlowat, so_sndtimeo, so_type, Level, ipproto_tcp, Printed, Answers, options, print_options,
  print_socket_opt_bool, print_socket_opt_int, print_socket_opt_timeval, print_socket_opt_linger,
}
use c_examples.Serial.Effects.{World, Log, closed, socket_close}

abbrev pub family_name : Family → Option Str
family_name af_unspec = none
family_name af_inet = some af_inet_str
family_name af_inet6 = some af_inet6_str
family_name af_unix = some af_unix_str

abbrev pub type_name : SocketType → Str
type_name sock_stream = sock_stream_str
type_name sock_dgram = sock_dgram_str
type_name sock_raw = sock_raw_str
type_name sock_seqpacket = sock_seqpacket_str

both : (b c : Bool) → (b && c) ≡ true → (b ≡ true) × (c ≡ true)
both true true h = (refl, refl)
both true false h = absurd (cc h)
both false c h = absurd (cc h)

strings_equal-eq : (s t : Str) → strings_equal s t ≡ true → s ≡ t
strings_equal-eq [] [] h = refl
strings_equal-eq (c ∷ s) (d ∷ t) h =
    let (first, others) = both (c == d) (strings_equal s t) h in
    let heads = (==_iff c d).0 first in rw (heads, strings_equal-eq s t others) refl
strings_equal-eq [] (d ∷ t) h = absurd (cc h)
strings_equal-eq (c ∷ s) [] h = absurd (cc h)

-- A test that is followed by others.
tested :
    {A : Type 0} (s t : Str) (a r : A) (others : Run A)
    → (if strings_equal s t then returns a else others) ≡ returns r
    → ((s ≡ t) × (r ≡ a)) ⊎ (others ≡ returns r)
tested s t a r others e = by_test (strings_equal s t) refl e
  where
    by_test :
        (b : Bool)
        → strings_equal s t ≡ b
        → (if b then returns a else others) ≡ returns r
        → ((s ≡ t) × (r ≡ a)) ⊎ (others ≡ returns r)
    by_test true h e = inl (strings_equal-eq s t h, returns-injective e)
    by_test false h e = inr e

string_to_address_family-eq-returns :
    (s : Str) (f : Family) → string_to_address_family (some s) ≡ returns f → family_name f ≡ some s
unfolding string_to_address_family
string_to_address_family-eq-returns s f e = elim (tested s af_inet_str af_inet f _ e) [
  | inl (h, k) ↦ rw (h, k) refl
  | inr e ↦ elim (tested s af_inet6_str af_inet6 f _ e) [
    | inl (h, k) ↦ rw (h, k) refl
    | inr e ↦ elim (tested s af_unix_str af_unix f _ e) [
      | inl (h, k) ↦ rw (h, k) refl
      | inr e ↦ absurd (cc e)
    ]
  ]
]

string_to_socket_type-eq-returns :
    (s : Str) (t : SocketType) → string_to_socket_type (some s) ≡ returns t → type_name t ≡ s
unfolding string_to_socket_type
string_to_socket_type-eq-returns s t e = elim (tested s sock_stream_str sock_stream t _ e) [
  | inl (h, k) ↦ rw (h, k) refl
  | inr e ↦ elim (tested s sock_dgram_str sock_dgram t _ e) [
    | inl (h, k) ↦ rw (h, k) refl
    | inr e ↦ elim (tested s sock_raw_str sock_raw t _ e) [
      | inl (h, k) ↦ rw (h, k) refl
      | inr e ↦ elim (tested s sock_seqpacket_str sock_seqpacket t _ e) [
        | inl (h, k) ↦ rw (h, k) refl
        | inr e ↦ absurd (cc e)
      ]
    ]
  ]
]

expected-eq-returns :
    (l : List Str) (domain : Family) (type : SocketType)
    → expected l ≡ returns (domain, type)
    → (family_str type_str : Str) × (l ≡ family_str ∷ type_str ∷ [])
      × (family_name domain ≡ some family_str)
      × (type_name type ≡ type_str)
expected-eq-returns [] domain type e = absurd (cc e)
expected-eq-returns (x ∷ []) domain type e = absurd (cc e)
expected-eq-returns (x ∷ y ∷ []) domain type e =
    let (f, named, e) = >>=-eq-returns (string_to_address_family (some x)) _ e in
    let (t, named2, e) = >>=-eq-returns (string_to_socket_type (some y)) _ e in
    let is = returns-injective e in
    (
      x,
      y,
      refl,
      ap (λ r. family_name r.0) is ∙ string_to_address_family-eq-returns x f named,
      ap (λ r. type_name r.1) is ∙ string_to_socket_type-eq-returns y t named2,
    )
expected-eq-returns (x ∷ y ∷ z ∷ l) domain type e = absurd (cc e)

abbrev pub all_names : List OptionName
all_names =
    so_acceptconn ∷ so_broadcast ∷ so_debug ∷ so_dontroute ∷ so_error ∷ so_keepalive ∷ so_linger
    ∷ so_oobinline ∷ so_rcvbuf ∷ so_rcvlowat ∷ so_rcvtimeo ∷ so_reuseaddr ∷ so_sndbuf ∷ so_sndlowat
    ∷ so_sndtimeo ∷ so_type ∷ []

module _ (k : Answers) (fd : ℕ) (l : Level) (o n : OptionName) where
  bool-name : (print_socket_opt_bool k fd l o n).0 ≡ n
  unfolding print_socket_opt_bool
  bool-name = ground arith

  int-name : (print_socket_opt_int k fd l o n).0 ≡ n
  unfolding print_socket_opt_int
  int-name = ground arith

  timeval-name : (print_socket_opt_timeval k fd l o n).0 ≡ n
  unfolding print_socket_opt_timeval
  timeval-name = ground arith

  linger-name : (print_socket_opt_linger k fd l o n).0 ≡ n
  unfolding print_socket_opt_linger
  linger-name = ground arith

names_in_order : (k : Answers) (fd : ℕ) → map (λ p. p.0) (print_options k fd options) ≡ all_names
unfolding print_options
names_in_order k fd = simp (bool-name, int-name, timeval-name, linger-name)

module _ (sys : System) (v : World) (a : CommandLine) (scanned : IsScanned a) where
  -- Whenever networking-functions/socket returns, its operands were the names of the family and the
  -- type of its socket, which it has closed.
  pub socket_main-creates :
      (s : Socket) (log : Log)
      → SocketProgram.main sys v a ≡ returns (s, log)
      → (family_str type_str : Str) × (operands a ≡ family_str ∷ type_str ∷ [])
        × (family_name s.domain ≡ some family_str)
        × (type_name s.type ≡ type_str)
        × (log ≡ closed s.sockfd ∷ [])
  unfolding SocketProgram.main SocketProgram.socket_create SocketProgram.socket_close socket_close
  socket_main-creates s log e =
      let ((domain, type), got, e) = >>=-eq-returns (CliSocket.arguments a) _ e in
      let (t, made, e) = >>=-eq-returns (socket_create sys domain type) _ e in
      let (log2, shut, e) = >>=-eq-returns (socket_close v t.sockfd []) _ e in
      let (closes, log2_is) = require-eq-returns (v.closes t.sockfd) _ shut in
      let is = returns-injective e in
      let s_is = ap (λ r. r.0) is in
      let fresh_is = s_is ∙ socket_create-Fresh sys domain type t made in
      let (u, h, k) =
        >>=-eq-returns (stops [] a.opts) (λ _. expected (operands a))
          (sym (socket-arguments a scanned) ∙ got) in
      let (family_str, type_str, split, f, g) = expected-eq-returns (operands a) domain type k in
      (
        family_str,
        type_str,
        split,
        ap (λ s. family_name s.domain) fresh_is ∙ f,
        ap (λ s. type_name s.type) fresh_is ∙ g,
        ap (λ r. r.1) is ∙ returns-injective log2_is ∙ ap (λ s. closed s.sockfd ∷ []) (sym s_is),
      )

  -- Whenever sockets/getsockopt returns, its socket was bound to what its operands name, and it has
  -- printed one line for each option, in the order of its table, whatever `getsockopt` answered.
  pub getsockopt_main-names :
      (order : IsOrdered sys) (k : Answers) (s : Socket) (lines : List Printed) (log : Log)
      → GetSockopt.main sys v k a ≡ returns (s, lines, log)
      → BoundTo sys sock_stream (operands a) s
        × (map (λ p. p.0) lines ≡ all_names)
        × (log ≡ closed s.sockfd ∷ [])
  unfolding GetSockopt.main GetSockopt.arguments GetSockopt.convert_address GetSockopt.socket_create
      GetSockopt.socket_bind GetSockopt.socket_close open_socket socket_close
  getsockopt_main-names order k s lines log e =
      let (t, there, reuse, e) =
        bound_socket sys order a (TcpServer.arguments a) sock_stream returns false _
          (tcp_server-arguments a scanned) (λ fd domain t e. returns-injective e) e in
      let (log2, shut, e) = >>=-eq-returns (socket_close v t.sockfd []) _ e in
      let (closes, log2_is) = require-eq-returns (v.closes t.sockfd) _ shut in
      let is = returns-injective e in
      let s_is = ap (λ r. r.0) is in
      (
        subst (BoundTo sys sock_stream (operands a)) (sym s_is) there,
        ap (λ r. map (λ p. p.0) r.1) is ∙ names_in_order k t.sockfd,
        ap (λ r. r.2) is ∙ returns-injective log2_is ∙ ap (λ s. closed s.sockfd ∷ []) (sym s_is),
      )
