-- ===== src/Neural/Tests.antt =====
-- The theorems on the planes at concrete inputs.
mod Planes
mod Requests
