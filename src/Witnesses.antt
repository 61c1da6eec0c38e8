-- ===== src/Witnesses.antt =====
-- The theorems at concrete inputs.
mod Store
mod Requests
mod Chain
mod Service
mod Pools
mod Client
mod Process
mod Worker
mod Served
mod Polled
mod Pipeline
mod System
mod Routed
mod Answered
mod Started
mod Lived
mod Stale
