-- ===== src/Server.antt =====
-- shorty-server/src: the HTTP and gRPC server over the repository and the cache.
pub mod Error
pub mod Dto
pub mod Cache
pub mod Handlers
pub mod Auth
pub mod RateLimit
pub mod Stats
pub mod Grpc
pub mod Cleanup
pub mod Config
pub mod Router
pub mod Startup
pub mod Process
pub mod Tests
pub mod HandlerTests
