-- ===== src/Tests.antt =====
-- Tests of the model on concrete inputs, and instances of the theorems.
mod Server
mod Domain
mod Store
mod Enqueue
mod Execute
mod Api
mod Breaker
mod LogServer
mod Queue
mod Letters
mod Served
mod Cli
mod Middleware
mod Worker
