-- ===== src/Rv32/Step/Holding.antt =====
-- The cases that access memory: which of them can end with the bus lock held.
use Prim.Native.Nat.{min, max}
use riscv_vp_plusplus.Base.{
  u32, ◌+◌, ◌≤◌, ◌≢◌, if◌then◌else◌, ℕ, ◌≡◌, ◌%◌, ◌^◌, true, false, ◌⊎◌, inl, inr, arith, bit_xor,
  bit_and, bit_or, sign_extend,
}
use mathlib.Core.Path.{subst}
use riscv_vp_plusplus.Bus.{is_locked}
use riscv_vp_plusplus.Instr.OpId.{OpId}
use riscv_vp_plusplus.Instr.Fields.{rs1, rs2, i_imm, s_imm}
use riscv_vp_plusplus.Mmu.{Access, done}
use riscv_vp_plusplus.Mmu.Walk.{Access-cases}
use riscv_vp_plusplus.Mmu.Buffer.{done_inj}
use riscv_vp_plusplus.Mem.{
  Interface, MemState, bind, data_memory, load_data, store_data, atomic_load_data,
  atomic_load_reserved_data, atomic_store_data, atomic_store_conditional_data,
}
use riscv_vp_plusplus.Mem.Lock.{bind-done, store_data-holds, atomic_store_conditional_data-holds}
use riscv_vp_plusplus.Mem.Release.{IsKeptOrFree, load_data-IsKeptOrFree}
use riscv_vp_plusplus.Rv32.Exec.Arith.{signed_lt}
use riscv_vp_plusplus.Rv32.Exec.Memory.{
  MemoryHart, retired, MemoryCase, load_case, store_case, amo_case, lr_case, sc_case, no_case,
  memory_case, exec_case,
}

module _ {B : Type 0} (iface : Interface B) where
  -- A load that returns keeps the lock or gives it back; a store that returns gives it back.
  abbrev LoadsQuietly : (MemState B → ℕ → Access (MemState B) ℕ) → Type 0
  LoadsQuietly f =
      (addr value : ℕ) (s s' : MemState B)
      → f s addr ≡ done s' value
      → IsKeptOrFree iface s.memory.bus_lock s'.memory.bus_lock

  abbrev StoresQuietly : (MemState B → ℕ → ℕ → Access (MemState B) ℕ) → Type 0
  StoresQuietly f =
      (addr value r : ℕ) (s s' : MemState B)
      → f s addr value ≡ done s' r
      → is_locked s'.memory.bus_lock iface.hart_id ≡ false

  pub data IsQuiet : MemoryCase (MemState B) → Type 0 where
    quiet_load :
        {a : ℕ} {f : MemState B → ℕ → Access (MemState B) ℕ}
        → LoadsQuietly f
        → IsQuiet (load_case a f)
    quiet_store :
        {a : ℕ} {f : MemState B → ℕ → ℕ → Access (MemState B) ℕ}
        → StoresQuietly f
        → IsQuiet (store_case a f)
    quiet_amo : {f : ℕ → ℕ → ℕ} → IsQuiet (amo_case f)
    quiet_lr : IsQuiet lr_case
    quiet_sc : IsQuiet sc_case
    quiet_none : IsQuiet no_case

  load_word-LoadsQuietly : (bytes : ℕ) → LoadsQuietly (load_data iface bytes)
  load_word-LoadsQuietly bytes addr value s s' e =
      load_data-IsKeptOrFree iface bytes addr value s s' e

  extended-LoadsQuietly :
      (bytes : ℕ) (extend : ℕ → ℕ)
      → LoadsQuietly (λ s addr. bind (load_data iface bytes s addr) (λ s' v. done s' (extend v)))
  extended-LoadsQuietly bytes extend addr value s s' e =
      let (s1, v, loaded, same) = bind-done (load_data iface bytes s addr) _ s' value e in
      subst (λ (t : MemState B). IsKeptOrFree iface s.memory.bus_lock t.memory.bus_lock)
        (done_inj same).0 (load_data-IsKeptOrFree iface bytes addr v s s1 loaded)

  store-StoresQuietly :
      (bytes : ℕ) (narrow : ℕ → ℕ)
      → StoresQuietly (λ s addr value. store_data iface bytes s addr (narrow value))
  store-StoresQuietly bytes narrow addr value r s s' e =
      store_data-holds iface bytes addr (narrow value) r s s' e

  pub memory_case-IsQuiet : (op : OpId) → IsQuiet (memory_case (data_memory iface) op)
  unfolding memory_case data_memory
  memory_case-IsQuiet op =
      let lb = quiet_load {a = 1} (extended-LoadsQuietly 1 (sign_extend 8)) in
      let lh = quiet_load {a = 2} (extended-LoadsQuietly 2 (sign_extend 16)) in
      let lbu = quiet_load {a = 1} (load_word-LoadsQuietly 1) in
      let lhu = quiet_load {a = 2} (load_word-LoadsQuietly 2) in
      let lw = quiet_load {a = 4} (load_word-LoadsQuietly 4) in
      let sb = quiet_store {a = 1} (store-StoresQuietly 1 (λ v. v % 2 ^ 8)) in
      let sh = quiet_store {a = 2} (store-StoresQuietly 2 (λ v. v % 2 ^ 16)) in
      let sw = quiet_store {a = 4} (store-StoresQuietly 4 (λ v. v)) in
      let swap = quiet_amo {f = λ a b. b} in
      let add = quiet_amo {f = λ a b. u32 (a + b)} in
      let xor = quiet_amo {f = bit_xor} in
      let and = quiet_amo {f = bit_and} in
      let or = quiet_amo {f = bit_or} in
      let least = quiet_amo {f = λ a b. if signed_lt b a then b else a} in
      let least_u = quiet_amo {f = min} in
      let greatest = quiet_amo {f = λ a b. if signed_lt a b then b else a} in
      let greatest_u = quiet_amo {f = max} in
      let lr = quiet_lr in let sc = quiet_sc in let rest = quiet_none in ground arith

  -- A hart with the lock as the cases leave it: free, or with a reservation.
  abbrev pub IsHeldCounting : MemState B → MemoryHart → Type 0
  IsHeldCounting s m =
      ((is_locked s.memory.bus_lock iface.hart_id ≡ false) ⊎ (m.lr_sc_counter ≢ 0))
      × (m.lr_sc_counter ≤ 17)
      × ((m.lr_sc_counter ≡ 0) ⊎ (m.iss_slow_path ≡ true))

  pub IsKeptOrFree-IsHeldCounting :
      (s s' : MemState B) (m : MemoryHart)
      → IsKeptOrFree iface s.memory.bus_lock s'.memory.bus_lock
      → IsHeldCounting s m
      → IsHeldCounting s' m
  IsKeptOrFree-IsHeldCounting s s' m (inl e) h = (rw e h.0, h.1, h.2)
  IsKeptOrFree-IsHeldCounting s s' m (inr free) h = (inl free, h.1, h.2)

  pub exec_case-IsHeldCounting :
      (i : ℕ) (s s' : MemState B) (m m' : MemoryHart) (k : MemoryCase (MemState B))
      → IsQuiet k
      → IsHeldCounting s m
      → exec_case (data_memory iface) i s m k ≡ retired s' m'
      → IsHeldCounting s' m'
  unfolding exec_case data_memory atomic_store_data
  exec_case-IsHeldCounting i s s' m m' k (quiet_load {a = a} {f = f} q) h e =
      let addr = u32 (m.regs (rs1 i) + i_imm i) in
      elim (Access-cases (f s addr)) [
        | inl (s1, v, x) ↦
            let kept = IsKeptOrFree-IsHeldCounting s s1 m (q addr v s s1 x) h in ground arith
        | inr (inl (s1, trap, x)) ↦ absurd (ground arith)
        | inr (inr x) ↦ absurd (ground arith)
      ]
  exec_case-IsHeldCounting i s s' m m' k (quiet_store {a = a} {f = f} q) h e =
      let addr = u32 (m.regs (rs1 i) + s_imm i) in
      elim (Access-cases (f s addr (m.regs (rs2 i)))) [
        | inl (s1, v, x) ↦ let free = q addr (m.regs (rs2 i)) v s s1 x in ground arith
        | inr (inl (s1, trap, x)) ↦ absurd (ground arith)
        | inr (inr x) ↦ absurd (ground arith)
      ]
  exec_case-IsHeldCounting i s s' m m' k (quiet_amo {f = f}) h e =
      let addr = m.regs (rs1 i) in
      elim (Access-cases (atomic_load_data iface 4 s addr)) [
        | inl (s1, v, x) ↦
            let value = f v (m.regs (rs2 i)) in
            elim (Access-cases (atomic_store_data iface 4 s1 addr value)) [
              | inl (s2, r, y) ↦
                  let free = store_data-holds iface 4 addr value r s1 s2 y in ground arith
              | inr (inl (s2, trap, y)) ↦ absurd (ground arith)
              | inr (inr y) ↦ absurd (ground arith)
            ]
        | inr (inl (s1, trap, x)) ↦ absurd (ground arith)
        | inr (inr x) ↦ absurd (ground arith)
      ]
  exec_case-IsHeldCounting i s s' m m' k quiet_lr h e =
      elim (Access-cases (atomic_load_reserved_data iface 4 s (m.regs (rs1 i)))) [
        | inl (s1, v, x) ↦ ground arith
        | inr (inl (s1, trap, x)) ↦ absurd (ground arith)
        | inr (inr x) ↦ absurd (ground arith)
      ]
  exec_case-IsHeldCounting i s s' m m' k quiet_sc h e =
      let addr = m.regs (rs1 i) in
      let value = m.regs (rs2 i) in
      elim (Access-cases (atomic_store_conditional_data iface 4 s addr value)) [
        | inl (s1, success, x) ↦
            let (free, rest) =
              atomic_store_conditional_data-holds iface 4 addr value s s1 success x in
            ground arith
        | inr (inl (s1, trap, x)) ↦ absurd (ground arith)
        | inr (inr x) ↦ absurd (ground arith)
      ]
  exec_case-IsHeldCounting i s s' m m' k quiet_none h e = ground arith
