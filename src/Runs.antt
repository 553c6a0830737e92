-- ===== src/Runs.antt =====
-- The theorems at concrete inputs, with a hash function, a codec and a serializer that meet the
-- documented behaviour.
mod Data
mod Core
mod Files
mod Tx
mod Signer
mod Signing
mod Secrets
mod Instances
mod Keys
mod Workers
mod Cli
