-- ===== src/Cli.antt =====
-- The command lines of the programs: `getopt`, the checks, and the numbers.
pub mod Strto
pub mod Decimal
pub mod Getopt
pub mod Numbers
pub mod Parsed
pub mod TcpServer
pub mod TcpClient
pub mod Socket
pub mod UdpClient
pub mod ListenAccept
pub mod Bind
pub mod Strncmp
pub mod Lseek
pub mod Setuid
pub mod Difftime
pub mod Sleep
pub mod Nice
pub mod Chown
pub mod Nanosleep
pub mod TimedWait
