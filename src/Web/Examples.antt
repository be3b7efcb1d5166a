-- ===== src/Web/Examples.antt =====
-- Tests of the model by evaluation, and the theorems at concrete inputs.
mod Texts
mod Times
mod Pages
