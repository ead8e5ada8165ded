-- ===== src/Protocol/Window.antt =====
-- Which networks a policy lets through, and that execution and restoring undo one another on them.
use kanatoko.Prelude.{ℕ, ◌≡◌, ◌⊎◌, ◌↔◌, ok, arith}
use kanatoko.Protocol.{Policy, allow_newer, check, executed_version, restore, newer}

pub check_iff :
    (supported found : ℕ) (p : Policy)
    → (check supported p found ≡ ok tt)
      ↔ ((found ≡ supported) ⊎ ((p ≡ allow_newer) × (found ≡ newer supported)))
unfolding check
check_iff supported found p = ground arith

pub restore-executed :
    (supported network : ℕ)
    → restore supported (executed_version supported network) network ≡ network
unfolding restore
restore-executed supported network = ground arith

-- A version that a policy accepts is executed as exactly the supported protocol, and the network's
-- version is recovered from it.
pub accepted_executes :
    (supported found : ℕ) (p : Policy)
    → check supported p found ≡ ok tt
    → (executed_version supported found ≡ supported) × (restore supported supported found ≡ found)
unfolding check executed_version restore
accepted_executes supported found p h = ground arith
