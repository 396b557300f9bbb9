-- ===== src/Cpu/Exceptions/Total.antt =====
-- An interrupt without a handler: the report that is printed before the machine halts.
use astra_os.Base.{
  ℕ, suc, zero, ◌≤◌, ◌<◌, ◌^◌, ◌≡◌, ◌≢◌, inl, inr, refl, arith, Bool-cases, ◌==◌, ltb, ltb→lt,
  codes, List, [], ◌∷◌, ◌++◌, length, get_elem?, some, none, done, ==→eq,
}
use Prim.Native.String.{String}
use astra_os.Kernel.Print.Value.{IsDecimal, print_uint_lem}
use astra_os.Cpu.Interrupts.{Handlers}
use astra_os.Cpu.Exceptions.{
  exception_messages, message_of, exception_name, fault_reason, fault_lines, exception_report,
  dispatch, halts, isr_handler,
}

-- the name of an exception: its message, or that there is none
pub data IsName (int_no : ℕ) (name : List ℕ) : Type 0 where
  known :
      (message : String)
      → get_elem? exception_messages int_no ≡ some message
      → name ≡ codes message
      → IsName int_no name
  unknown : 32 ≤ int_no → name ≡ codes "Unknown Interrupt" → IsName int_no name

-- the lines of a page fault with the address in decimal, and none otherwise
pub data IsDetail (int_no err_code cr2 : ℕ) (lines : List ℕ) : Type 0 where
  page_fault :
      (address : List ℕ)
      → int_no ≡ 14
      → IsDecimal cr2 address
      → lines ≡ codes "\nFault Address: " ++ address ++ codes "\nReason: " ++ fault_reason err_code
      → IsDetail int_no err_code cr2 lines
  no_fault : int_no ≢ 14 → lines ≡ [] → IsDetail int_no err_code cr2 lines

-- name, number and error code of the interrupt in a report
pub record IsReport (int_no err_code cr2 : ℕ) (text : List ℕ) : Type 0 where
  pub name : List ℕ
  pub number : List ℕ
  pub code : List ℕ
  pub lines : List ℕ
  pub named : IsName int_no name
  pub numbered : IsDecimal int_no number
  pub coded : IsDecimal err_code code
  pub detailed : IsDetail int_no err_code cr2 lines
  pub whole :
      text
      ≡ codes "\n\n[EXCEPTION] "
        ++ name
        ++ codes "\nInterrupt: "
        ++ number
        ++ codes "\nError Code: "
        ++ code
        ++ lines
        ++ codes "\nSystem Halted.\n"

-- a list that has an element at every index below its length
get_elem?-some :
    {A : Type 0} (xs : List A) (i : ℕ) → i < length xs → (x : A) × (get_elem? xs i ≡ some x)
get_elem?-some [] i lt = absurd (omega arith)
get_elem?-some (x ∷ xs) zero lt = (x, refl)
get_elem?-some (x ∷ xs) (suc i) lt = get_elem?-some xs i (omega arith)

exception_name-IsName :
    (int_no : ℕ) → (name : List ℕ) × (exception_name int_no ≡ done name) × IsName int_no name
unfolding exception_name message_of
exception_name-IsName int_no = elim (Bool-cases (ltb int_no 32)) [
  | inl low ↦
      let (message, e) = get_elem?-some exception_messages int_no (ltb→lt int_no 32 low) in
      (codes message, rw (low, e) refl, known message e refl)
  | inr high ↦ (_, rw high refl, unknown (ground arith) refl)
]

fault_lines-IsDetail :
    (int_no err_code cr2 : ℕ)
    → cr2 < 2 ^ 32
    → (lines : List ℕ) × (fault_lines int_no err_code cr2 ≡ done lines)
      × IsDetail int_no err_code cr2 lines
unfolding fault_lines
fault_lines-IsDetail int_no err_code cr2 small = elim (Bool-cases (int_no == 14)) [
  | inl page ↦
      let (address, run, decimal, short) = print_uint_lem cr2 small in
      (_, rw (page, run) refl, page_fault address (==→eq int_no 14 page) decimal refl)
  | inr other ↦ ([], rw other refl, no_fault (ground arith) refl)
]

exception_report-IsReport :
    (int_no err_code cr2 : ℕ)
    → int_no < 2 ^ 32
    → err_code < 2 ^ 32
    → cr2 < 2 ^ 32
    → (text : List ℕ) × (exception_report int_no err_code cr2 ≡ done text)
      × IsReport int_no err_code cr2 text
unfolding exception_report
exception_report-IsReport int_no err_code cr2 hi he hc =
    let (name, n, named) = exception_name-IsName int_no in
    let (number, i, numbered, _) = print_uint_lem int_no hi in
    let (code, c, coded, _) = print_uint_lem err_code he in
    let (lines, l, detailed) = fault_lines-IsDetail int_no err_code cr2 hc in
    (
      _,
      rw (n, i, c, l) refl,
      record {
        name = name;
        number = number;
        code = code;
        lines = lines;
        named = named;
        numbered = numbered;
        coded = coded;
        detailed = detailed;
        whole = refl;
      },
    )

-- An interrupt without a handler always comes to its end, with a halt of the machine behind the whole
-- report: one of the 32 messages, read within their array, or for a number from 32 on that the
-- interrupt is unknown; the number and the error code in decimal; and for a page fault, and for
-- nothing else, the address of CR2 in decimal with the reason.
pub isr_handler-IsReport :
    (h : Handlers) (int_no err_code cr2 : ℕ)
    → int_no < 256
    → err_code < 2 ^ 32
    → cr2 < 2 ^ 32
    → h int_no ≡ none
    → (text : List ℕ) × (isr_handler h int_no err_code cr2 ≡ done (halts text))
      × IsReport int_no err_code cr2 text
unfolding isr_handler dispatch
isr_handler-IsReport h int_no err_code cr2 hi he hc nothing =
    let (text, run, report) = exception_report-IsReport int_no err_code cr2 (omega arith) he hc in
    (text, rw (nothing, run) refl, report)
