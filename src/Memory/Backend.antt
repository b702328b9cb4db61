-- ===== src/Memory/Backend.antt =====
-- src/emulite/cpu/backend.py, as far as memory goes: the interface of a CPU engine. The engine
-- itself (Unicorn) is a library, so the model takes any implementation: each call may raise, and
-- may change the machine when it does.
use emulite.Base.{ℕ, List}
use emulite.Base.Action.{Action}

pub record Backend : Type 1 where
  pub Machine : Type 0
  pub mem_map : ℕ → ℕ → ℕ → Action Machine (Unit {0})
  pub mem_protect : ℕ → ℕ → ℕ → Action Machine (Unit {0})
  pub mem_unmap : ℕ → ℕ → Action Machine (Unit {0})
  pub mem_read : ℕ → ℕ → Action Machine (List ℕ)
  pub mem_write : ℕ → List ℕ → Action Machine (Unit {0})
