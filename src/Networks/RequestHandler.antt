-- ===== src/Networks/RequestHandler.antt =====
-- Networks/RequestHandler.h and Networks/RequestHandler.cpp.
pub mod UrlDecode
pub mod Paths
pub mod Numbers
pub mod Endpoints
pub mod Handling
