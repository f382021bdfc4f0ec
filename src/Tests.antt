-- ===== src/Tests.antt =====
-- Tests of the definitions and instances of the theorems, in an environment of concrete libraries.
mod Trees
mod Toy
mod States
mod Commands
mod Requests
mod Messages
mod Session
mod Nodes
mod Contracts
mod Abstract
mod Calls
