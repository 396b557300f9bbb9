-- ===== src/Cpu/Exceptions.antt =====
-- src/cpu/isr.c: the dispatch of exceptions and system calls, and the report of those without a
-- handler.
pub mod Total
use Prim.Native.String.{String}
use astra_os.Base.{
  ℕ, ◌+◌, ◌/◌, ◌%◌, ◌==◌, ltb, codes, Bool, not, if◌then◌else◌, update, List, [], ◌∷◌, ◌++◌,
  get_elem?, Option, none, some, Run, done, fault, ◌>>=◌,
}
use astra_os.Kernel.Print.{print_uint}
use astra_os.Cpu.Interrupts.{Handlers}

unfoldable pub isr_register_handler : ℕ → ℕ → Handlers → Handlers
unfolding update
isr_register_handler n handler h = update h (n % 256) (some handler)

abbrev pub exception_messages : List String
exception_messages =
    "Division By Zero" ∷ "Debug" ∷ "Non Maskable Interrupt" ∷ "Breakpoint"
    ∷ "Into Detected Overflow" ∷ "Out of Bounds" ∷ "Invalid Opcode" ∷ "No Coprocessor"
    ∷ "Double Fault" ∷ "Coprocessor Segment Overrun" ∷ "Bad TSS" ∷ "Segment Not Present"
    ∷ "Stack Fault" ∷ "General Protection Fault" ∷ "Page Fault" ∷ "Unknown Interrupt"
    ∷ "Coprocessor Fault" ∷ "Alignment Check" ∷ "Machine Check" ∷ "Reserved" ∷ "Reserved"
    ∷ "Reserved" ∷ "Reserved" ∷ "Reserved" ∷ "Reserved" ∷ "Reserved" ∷ "Reserved" ∷ "Reserved"
    ∷ "Reserved" ∷ "Reserved" ∷ "Reserved" ∷ "Reserved" ∷ []

-- bit `2^k` of the error code, given `2^k`
abbrev pub has_bit : ℕ → ℕ → Bool
has_bit err_code bit = err_code / bit % 2 == 1

-- the reason of a page fault
unfoldable pub fault_reason : ℕ → List ℕ
fault_reason err_code =
    (if not (has_bit err_code 1) then codes "Page not present " else [])
    ++ (if has_bit err_code 2 then codes "Write " else codes "Read ")
    ++ (if has_bit err_code 4 then codes "User-mode " else codes "Kernel-mode ")
    ++ (if has_bit err_code 8 then codes "Reserved-bit violation " else [])
    ++ (if has_bit err_code 16 then codes "Instruction fetch " else [])

-- the lines that only a page fault has; `cr2` is the register of that name
unfoldable pub fault_lines : ℕ → ℕ → ℕ → Run (List ℕ)
unfolding print_uint fault_reason
fault_lines int_no err_code cr2 =
    let lines = print_uint cr2 >>= λ addr.
    done (codes "\nFault Address: " ++ addr ++ codes "\nReason: " ++ fault_reason err_code) in
    if int_no == 14 then lines else done []

-- `exception_messages[int_no]`, of 32 messages
unfoldable pub message_of : ℕ → Run (List ℕ)
message_of int_no = elim (get_elem? exception_messages int_no) [
  | none ↦ fault
  | some message ↦ done (codes message)
]

unfoldable pub exception_name : ℕ → Run (List ℕ)
unfolding message_of
exception_name int_no =
    let message = message_of int_no in
    if ltb int_no 32 then message else done (codes "Unknown Interrupt")

-- the whole report
unfoldable pub exception_report : ℕ → ℕ → ℕ → Run (List ℕ)
unfolding print_uint fault_lines exception_name
exception_report int_no err_code cr2 = do
  name ← exception_name int_no
  number ← print_uint int_no
  code ← print_uint err_code
  lines ← fault_lines int_no err_code cr2
  done (
      codes "\n\n[EXCEPTION] "
      ++ name
      ++ codes "\nInterrupt: "
      ++ number
      ++ codes "\nError Code: "
      ++ code
      ++ lines
      ++ codes "\nSystem Halted.\n")

-- a handler is called, or the report is printed and the processor halted for good
pub data Dispatch : Type 0 where
  calls : ℕ → Dispatch
  halts : List ℕ → Dispatch

-- with the entry of `interrupt_handlers`
unfoldable pub dispatch : Option ℕ → ℕ → ℕ → ℕ → Run Dispatch
unfolding exception_report
dispatch (some handler) int_no err_code cr2 = done (calls handler)
dispatch none int_no err_code cr2 =
    exception_report int_no err_code cr2 >>= λ text. done (halts text)

unfoldable pub isr_handler : Handlers → ℕ → ℕ → ℕ → Run Dispatch
unfolding dispatch
isr_handler h int_no = dispatch (h int_no) int_no
