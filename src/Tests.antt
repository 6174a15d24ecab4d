-- ===== src/Tests.antt =====
-- Runs of the model on small inputs, one module for each part.
mod Playlists
mod Stores
mod Remote
mod Files
mod Taps
