-- ===== src/Examples.antt =====
-- Concrete surroundings for the theorems, tests on concrete inputs, and the theorems applied there.
mod Codec
mod World
mod Blank
mod Witnesses
