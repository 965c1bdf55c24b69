-- ===== src/Networks.antt =====
-- Networks/: the HTTP side of the server.
pub mod Request
pub mod RequestParser
pub mod Reply
pub mod MimeTypes
pub mod RequestHandler
pub mod IoServicePool
pub mod Connection
pub mod UdpServer
pub mod NtpClient
pub mod Server
