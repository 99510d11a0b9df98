-- ===== src/Examples.antt =====
-- Instances of the theorems at concrete inputs, and tests.
mod Ecu
mod Client
mod Dids
mod Access
mod Crash
mod Bus
mod Doip
mod Raw
mod Shell
mod Config
mod Wlan
mod Values
mod Someip
mod Multicast
mod Tcp
