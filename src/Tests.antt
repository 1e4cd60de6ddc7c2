-- ===== src/Tests.antt =====
-- Runs of the models on concrete inputs, and instances of the theorems.
mod Readers
mod Text
mod Queues
mod Tensors
mod Decoding
