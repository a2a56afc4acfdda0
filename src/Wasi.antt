-- ===== src/Wasi.antt =====
-- guest/wit_world/imports: the types of the host's interfaces that the guest's code works with.
-- The functions of these interfaces are the host's; the guest's modules take them as parameters.
pub mod Io
pub mod Http
