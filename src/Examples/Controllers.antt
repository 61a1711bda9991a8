-- ===== src/Examples/Controllers.antt =====
-- The PLIC of a platform with 53 interrupts, with interrupt 3 pending and 5 enabled with it.
use riscv_vp_plusplus.Base.{
  ℕ, ◌^◌, ◌+◌, ◌≡◌, ◌≢◌, ◌==◌, refl, inl, arith, true, false, [], ◌∷◌, some, if◌then◌else◌,
}
use riscv_vp_plusplus.Rv32.State.{machine_mode}
use riscv_vp_plusplus.Plic.{
  SifivePlic, Harts, is_pending, is_candidate, priority_of, next_pending_irq, view, read_hartctx,
  write_hartctx, write_irq_prios, gateway_trigger_interrupt, run,
}
use riscv_vp_plusplus.Plic.Select.{IsBest, next_pending_irq-IsBest}
use riscv_vp_plusplus.Plic.Claim.{
  IsPendingBut, IsBounded, read_hartctx-claim, write_irq_prios-IsBounded,
}
use riscv_vp_plusplus.Plic.Delivery.{HasExternal}
use riscv_vp_plusplus.Plic.Run.{run-gateway_trigger_interrupt}
use riscv_vp_plusplus.Examples.{quiet_core}

-- Interrupts 3 and 5 are enabled, with priorities 2 and 6, and 3 is pending.
abbrev plic : SifivePlic
plic = record {
  fu540_mode = true;
  numirq = 53;
  interrupt_priorities = λ i. if i == 2 then 2 else if i == 4 then 6 else 0;
  pending_interrupts = λ i. if i == 0 then 2 ^ 3 else 0;
  enabled_irqs = λ hart level i. if i == 0 then 2 ^ 3 + 2 ^ 5 else 0;
  threshold = λ hart level. 1;
  claim = λ hart level. 0;
  context_rest = λ hart level word. 0;
}

abbrev harts : Harts
harts hart = quiet_core

next_pending_irq-IsBest_example :
    IsBest (is_candidate plic 1 machine_mode true) (priority_of plic) 53 3
unfolding next_pending_irq
next_pending_irq-IsBest_example = next_pending_irq-IsBest plic 1 machine_mode 3 true refl

read_hartctx-claim_example :
    (p' : SifivePlic) × (read_hartctx plic 4 1 machine_mode ≡ some p')
    × (p'.claim 1 (view plic 1 machine_mode) ≡ 3)
    × (◌≢◌ {A = ℕ} 3 0 → IsPendingBut plic p' 3 false)
    × (◌≡◌ {A = ℕ} 3 0 → (j : ℕ) → is_pending p' j ≡ is_pending plic j)
unfolding next_pending_irq
read_hartctx-claim_example = read_hartctx-claim plic 4 1 machine_mode 3 refl refl

abbrev triggered_plic : SifivePlic
triggered_plic = record plic {
  pending_interrupts = λ i. if i == 0 then 2 ^ 3 + 2 ^ 5 else plic.pending_interrupts i;
}

plic-IsBounded : IsBounded plic
plic-IsBounded = (λ idx. ground arith, λ hart level. omega arith)

write_irq_prios-IsBounded_example :
    IsBounded (write_irq_prios plic 4 (9 ∷ []))
    × IsBounded (write_hartctx plic harts 0 1 machine_mode 9).0
    × ((p' : SifivePlic) → read_hartctx plic 0 1 machine_mode ≡ some p' → IsBounded p')
    × ((p' : SifivePlic) (irq : ℕ) → gateway_trigger_interrupt plic irq ≡ some p' → IsBounded p')
write_irq_prios-IsBounded_example =
    write_irq_prios-IsBounded plic harts 0 1 machine_mode 4 9 plic-IsBounded

-- A write of two words leaves the second as it is.
write_irq_prios_test : (write_irq_prios plic 4 (9 ∷ 9 ∷ [])).interrupt_priorities 5 ≡ 9
unfolding write_irq_prios
write_irq_prios_test = refl

run-gateway_trigger_interrupt_example :
    (p' : SifivePlic) × (harts' : Harts) × (gateway_trigger_interrupt plic 5 ≡ some p')
    × (run p' 2 harts ≡ some harts')
    × HasExternal (harts' 1)
run-gateway_trigger_interrupt_example =
    run-gateway_trigger_interrupt plic 2 harts 1 machine_mode 5 (omega arith) (omega arith)
      (omega arith) (omega arith) (inl refl) refl (omega arith)
