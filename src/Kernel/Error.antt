-- ===== src/Kernel/Error.antt =====
-- crates/kernel/src/error.rs: the errors that the registries return, without their message texts.
use selium.Base.{ℕ, String}
use selium.Abi.Classes.{ResourceClass}

pub data Error : Type 0 where
  not_found timeout already_completed : Error
  process_stopped : ℕ → Error
  quota_exceeded : String → ResourceClass → Error
  wasm : Error
