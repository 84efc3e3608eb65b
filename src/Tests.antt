-- ===== src/Tests.antt =====
-- Runs of the model at fixed inputs, and the theorems at inputs that meet their hypotheses.
mod Data
mod Kernel
mod Keyboard
mod Display
mod Ports
mod Controller
mod Tables
mod Crt
mod Boot
mod Interrupts
mod Loader
mod PowerOn
