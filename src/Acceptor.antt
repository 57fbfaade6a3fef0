-- ===== src/Acceptor.antt =====
-- src/relay_acceptor.cpp: the sockets that the server listens on, and the loops that hand new
-- connections and datagrams to a manager.
pub mod Sockets
pub mod Receive
pub mod Remote
pub mod Clients
mod Tests
