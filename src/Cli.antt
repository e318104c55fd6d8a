-- ===== src/Cli.antt =====
-- cli.py: the environment's URL, the HTTP request, the commands, and `main`.
pub mod Url
pub mod Api
pub mod Command
pub mod Main
pub mod Requests
pub mod Refusals
pub mod Accepted
pub mod Segments
