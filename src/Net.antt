-- ===== src/Net.antt =====
-- The programs that set up an internet socket: the addresses, the set-up, and the programs.
pub mod Address
pub mod Sockets
pub mod Names
pub mod Setup
pub mod Serving
pub mod Served
pub mod Total
pub mod Datagram
pub mod Sent
pub mod Reached
pub mod Willing
pub mod Listened
pub mod TcpServer
pub mod SetsockoptServer
pub mod Bind
pub mod ListenAccept
pub mod TcpClient
pub mod SetsockoptClient
pub mod Connect
pub mod UdpClient
pub mod UdpServer
pub mod Created
pub mod SocketProgram
pub mod GetSockopt
