-- ===== src/Transport.antt =====
-- src/transport/: the sockets of the SDK. Network holds the system calls as parameters.
pub mod Network
pub mod Sending
pub mod StreamClient
pub mod Senders
pub mod TcpClient
pub mod UdpReceiver
pub mod Tests
