-- ===== src/Demo.antt =====
-- The demos: what the nodes run, how the work is divided, and what the clients do.
pub mod Primes
pub mod FindPrimes
pub mod Work
pub mod Arrays
pub mod PrimesClient
pub mod Cracker
pub mod CommTest
pub mod HelloWorld
pub mod CrackWork
pub mod CrackClient
mod Runs
mod Machine
mod PrimesRuns
mod CrackRuns
