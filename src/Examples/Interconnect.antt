-- ===== src/Examples/Interconnect.antt =====
-- The bus with two ports, and its lock.
use riscv_vp_plusplus.Base.{◌≡◌, ◌≢◌, true, false, none, refl, arith}
use riscv_vp_plusplus.Bus.{lock, unlock, is_locked}
use riscv_vp_plusplus.Bus.Laws.{lock-exclusive}

lock-exclusive_example :
    (is_locked (record { locked = true; owner = 1 }) 1 ≡ true)
    × (lock (record { locked = true; owner = 1 }) 0 ≡ none)
    × (unlock (record { locked = true; owner = 1 }) 0 ≡ record { locked = true; owner = 1 })
    × (lock (unlock (record { locked = true; owner = 1 }) 1) 0 ≢ none)
unfolding lock
lock-exclusive_example =
    lock-exclusive (record { locked = false; owner = 0 }) (record { locked = true; owner = 1 }) 1 0
      (ground arith) refl
