-- ===== src/Server/Examples.antt =====
-- Tests of the server model by evaluation, and its theorems at concrete inputs.
mod Queries
mod Stores
mod Ingests
mod Sites
mod Asked
