-- ===== src/Tests.antt =====
-- Examples at which the theorems apply.
mod Http
mod Logger
mod Sending
mod Threads
mod Net
mod Server
mod Worker
mod Post
