-- ===== src/Tests.antt =====
-- Examples at which the theorems apply, and a codec to run the service with.
mod Codecs
mod Service
mod Records
mod Access
mod Texts
mod Drivers
mod Entities
mod Reading
mod Console
mod Streams
mod Acceptor
mod Cursors
mod Typed
mod Dialog
mod Programs
mod Concurrent
