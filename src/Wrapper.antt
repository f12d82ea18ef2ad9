-- ===== src/Wrapper.antt =====
-- wrapper/: the client of the docker daemon.
pub mod DockerClient
mod Tests
