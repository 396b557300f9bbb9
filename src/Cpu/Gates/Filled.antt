-- ===== src/Cpu/Gates/Filled.antt =====
-- Where the gates lead once they are filled.
use mathlib.Core.Path.{subst}
use astra_os.Base.{
  ℕ, zero, suc, ◌+◌, ◌-◌, ◌^◌, ◌≤◌, ◌<◌, ◌≡◌, ◌≢◌, ◌⊎◌, inl, inr, ◌∙◌, refl, sym, arith, update_ne,
  ltb, ltb→lt, ltb→le, Bool-cases,
}
use astra_os.Cpu.Gdt.{IdtEntry, IdtTable, idt_set_gate, idt_set_gate_flags}
use astra_os.Cpu.Gdt.Decode.{handler_of, idt_set_gate_flags_lem}
use astra_os.Cpu.Gates.{set_gates, idt_init, isr_install, irq_install}

-- a gate that leads to a handler, with its flags
abbrev pub LeadsTo : ℕ → ℕ → IdtEntry → Type 0
LeadsTo handler flags e = (handler_of e ≡ handler) × (e.selector ≡ 8) × (e.flags ≡ flags)

set_gate-other :
    (n handler flags k : ℕ) (t : IdtTable) → k ≢ n → idt_set_gate_flags n handler flags t k ≡ t k
unfolding idt_set_gate_flags
set_gate-other n handler flags k t h = update_ne t n _ k h

set_gate-LeadsTo :
    (n handler flags : ℕ) (t : IdtTable)
    → handler < 2 ^ 32
    → LeadsTo handler flags (idt_set_gate_flags n handler flags t n)
set_gate-LeadsTo n handler flags t small =
    let (leads, selector, flag, _) =
      idt_set_gate_flags_lem n handler flags t (n + 1) small (omega arith) in
    (leads, selector, flag)

set_gates-other :
    (left n : ℕ) (stub : ℕ → ℕ) (t : IdtTable) (k : ℕ)
    → (k < n) ⊎ (n + left ≤ k)
    → set_gates left n stub t k ≡ t k
unfolding set_gates idt_set_gate
set_gates-other zero n stub t k out = refl
set_gates-other (suc left) n stub t k out =
    set_gates-other left (n + 1) stub (idt_set_gate n (stub n) t) k (omega arith)
    ∙ set_gate-other n (stub n) 0x8E k t (omega arith)

set_gates-LeadsTo :
    (left n : ℕ) (stub : ℕ → ℕ) (t : IdtTable) (k : ℕ)
    → n ≤ k
    → k < n + left
    → stub k < 2 ^ 32
    → LeadsTo (stub k) 0x8E (set_gates left n stub t k)
unfolding set_gates idt_set_gate
set_gates-LeadsTo zero n stub t k from to small = absurd (omega arith)
set_gates-LeadsTo (suc left) n stub t k from to small = elim (Bool-cases (ltb n k)) [
  | inl h ↦
      let later = ltb→lt n k h in
      set_gates-LeadsTo left (n + 1) stub (idt_set_gate n (stub n) t) k (omega arith) (omega arith)
        small
  | inr h ↦
      let same : k ≡ n = omega (arith, ltb→le n k h) in
      subst (λ e. LeadsTo (stub k) 0x8E e)
        (sym (set_gates-other left (n + 1) stub (idt_set_gate n (stub n) t) k (inl (omega arith))))
        (subst (λ j. LeadsTo (stub k) 0x8E (idt_set_gate j (stub j) t k)) same
          (set_gate-LeadsTo k (stub k) 0x8E t small))
]

module _ (isr irq : ℕ → ℕ) (isr128 : ℕ) (address : ℕ) (t : IdtTable) where
  -- the table after the three calls, in the order of `kernel_main`
  abbrev pub filled : IdtTable
  filled = irq_install irq (isr_install isr isr128 (idt_init address t).1).1

  -- After `idt_init`, `isr_install` and `irq_install` the gates of the 32 exceptions lead to their
  -- stubs and those of the 16 hardware lines to theirs, as interrupt gates of ring 0; gate 128
  -- leads to the stub of the system calls and is open to ring 3; and every other of the 256 gates
  -- is empty, with a handler of 0. The addresses of the stubs are words.
  pub filled-LeadsTo :
      ((n : ℕ) → isr n < 2 ^ 32)
      → ((n : ℕ) → irq n < 2 ^ 32)
      → isr128 < 2 ^ 32
      → ((n : ℕ) → n < 32 → LeadsTo (isr n) 0x8E (filled n))
        × ((n : ℕ) → n < 16 → LeadsTo (irq n) 0x8E (filled (n + 32)))
        × LeadsTo isr128 0xEE (filled 128)
        × ((n : ℕ) → 48 ≤ n → n < 256 → n ≢ 128 → LeadsTo 0 0x8E (filled n))
  unfolding idt_init isr_install irq_install
  filled-LeadsTo small small' small128 = (
    λ n lt.
        subst (LeadsTo (isr n) 0x8E)
          (sym (
            set_gates-other 16 32 lines traps n (inl lt)
            ∙ set_gate-other 128 isr128 0xEE n exceptions (omega arith)))
          (set_gates-LeadsTo 32 0 isr empty n (omega arith) (omega arith) (small n)),
    λ n lt.
        subst (λ i. LeadsTo (irq i) 0x8E (filled (n + 32))) (back n)
          (set_gates-LeadsTo 16 32 lines traps (n + 32) (omega arith) (omega arith) (small' _)),
    subst (LeadsTo isr128 0xEE) (sym (set_gates-other 16 32 lines traps 128 (inr (omega arith))))
        (set_gate-LeadsTo 128 isr128 0xEE exceptions small128),
    λ n from to other.
        subst (LeadsTo 0 0x8E)
          (sym (
            set_gates-other 16 32 lines traps n (inr (omega arith))
            ∙ set_gate-other 128 isr128 0xEE n exceptions other
            ∙ set_gates-other 32 0 isr empty n (inr (omega arith))))
          (set_gates-LeadsTo 256 0 (λ i. 0) t n (omega arith) (omega arith) (omega arith)),
  )
    where
      lines : ℕ → ℕ
      lines n = irq (n - 32)

      empty : IdtTable
      empty = set_gates 256 0 (λ i. 0) t

      exceptions : IdtTable
      exceptions = set_gates 32 0 isr empty

      traps : IdtTable
      traps = idt_set_gate_flags 128 isr128 0xEE exceptions

      back : (n : ℕ) → n + 32 - 32 ≡ n
      back n = omega arith
