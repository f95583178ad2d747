-- ===== src/Signing.antt =====
-- pkg/signing: signatures on relay messages. The child modules model verify.go and sign.go.
pub mod Window
pub mod Nonces
pub mod Verifier
pub mod Replay
pub mod Binding
pub mod Resealed
pub mod Signer
