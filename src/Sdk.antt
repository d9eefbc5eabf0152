-- ===== src/Sdk.antt =====
-- packages/hcp-sdk/src: what a control plane uses of the SDK beside the reader of Content.
pub mod Sessions
