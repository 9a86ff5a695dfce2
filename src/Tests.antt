-- ===== src/Tests.antt =====
-- Runs of the model at concrete inputs, and the theorems at concrete inputs.
mod Display
mod Gateway
mod Address
mod Modem
mod Driver
mod Hosts
mod Lamp
