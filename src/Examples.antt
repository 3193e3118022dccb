-- ===== src/Examples.antt =====
-- Runs of the definitions on concrete inputs, and the theorems at inputs that meet their hypotheses.
mod Data
mod Encoding
mod Failures
mod Spending
mod Exchange
mod Approving
mod Owning
mod Guarding
mod Delivering
mod Rooming
mod Resuming
mod Receiving
