-- ===== src/Cpu/Interrupts.antt =====
-- src/cpu/irq.c with `pic_send_eoi` of src/drivers/pic.c: the dispatch of hardware interrupts.
use astra_os.Base.{
  ℕ, ◌+◌, ◌-◌, ◌≡◌, ◌<◌, arith, true, ◌&&◌, ltb, leb, if◌then◌else◌, List, [], ◌∷◌, ◌++◌, Option,
  none, some, update, update_self,
}

-- what an interrupt does, in its order: a handler is called, or a port is written
pub data Effect : Type 0 where
  call : ℕ → Effect
  outb : ℕ → ℕ → Effect

-- `irq_handlers`: the address of a handler, or NULL
abbrev pub Handlers : Type 0
Handlers = ℕ → Option ℕ

unfoldable pub irq_register_handler : ℕ → ℕ → Handlers → Handlers
unfolding update
irq_register_handler irq handler h = if ltb irq 16 then update h irq (some handler) else h

unfoldable pub pic_send_eoi : ℕ → List Effect
pic_send_eoi irq = (if leb 8 irq then outb 0xA0 0x20 ∷ [] else []) ++ outb 0x20 0x20 ∷ []

abbrev pub handle : Option ℕ → List Effect
handle none = []
handle (some handler) = call handler ∷ []

-- `int irq = r->int_no - 32`, which is negative below 32
unfoldable pub irq_handler : ℕ → Handlers → List Effect
unfolding pic_send_eoi
irq_handler int_no h =
    let irq = int_no - 32 in
    if leb 32 int_no && ltb irq 16 then handle (h irq) ++ pic_send_eoi irq else []

-- After a handler is registered for one of the 16 lines, the interrupt of that line calls it and
-- then acknowledges: at the second controller first, if the line is one of its eight, and at the
-- first controller always.
pub irq_handler-irq_register_handler :
    (irq handler : ℕ) (h : Handlers)
    → irq < 16
    → irq_handler (irq + 32) (irq_register_handler irq handler h)
      ≡ call handler
        ∷ (if leb 8 irq then outb 0xA0 0x20 ∷ outb 0x20 0x20 ∷ [] else outb 0x20 0x20 ∷ [])
unfolding irq_handler irq_register_handler pic_send_eoi
irq_handler-irq_register_handler irq handler h low =
    let line : irq + 32 - 32 ≡ irq = omega arith in
    let in_range : leb 32 (irq + 32) ≡ true = ground arith in
    let small : ltb irq 16 ≡ true = ground arith in
    rw (line, in_range, small, update_self h irq (some handler)) (ends irq)
  where
    ends :
        (irq : ℕ)
        → call handler ∷ ((if leb 8 irq then outb 0xA0 0x20 ∷ [] else []) ++ outb 0x20 0x20 ∷ [])
          ≡ call handler
            ∷ (if leb 8 irq then outb 0xA0 0x20 ∷ outb 0x20 0x20 ∷ [] else outb 0x20 0x20 ∷ [])
    ends irq = ground arith
