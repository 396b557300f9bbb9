-- ===== src/Kernel/Start.antt =====
-- src/kernel/kernel.c: the order in which the kernel's parts are set up, the first program, and the
-- shell.
use astra_os.Base.{ℕ, ◌+◌, ◌^◌, leb, codes, if◌then◌else◌, List, ◌++◌, none, some, Run, done, ◌>>=◌}
use astra_os.Drivers.Vga.{clear_screen}
use astra_os.Drivers.Pic.{pic_remap}
use astra_os.Fs.Fat16.Layout.{fat16_init}
use astra_os.Memory.Heap.{kmalloc_init}
use astra_os.Memory.Paging.{paging_init}
use astra_os.Cpu.Gdt.{GdtTable, IdtTable, gdt_init}
use astra_os.Cpu.Gates.{IdtPtr, idt_init, isr_install, irq_install}
use astra_os.Cpu.Interrupts.{Handlers, Effect, irq_register_handler}
use astra_os.Cpu.Exceptions.{isr_register_handler}
use astra_os.Cpu.Timer.{timer_init}
use astra_os.Cpu.Tss.{Tss, tss_install}
use astra_os.Kernel.Storage.{fat16_files}
use astra_os.Kernel.Exec.{Launch, kernel_exec_elf}
use astra_os.Kernel.Shell.State.{Machine, Shell}
use astra_os.Kernel.Shell.Command.Report.{say, put_uint}
use astra_os.Kernel.Shell.Input.{shell_init}

-- addresses that the linker gives: functions, stubs, tables, and the ends of the kernel
pub record Symbols : Type 0 where
  pub isr : ℕ → ℕ
  pub irq : ℕ → ℕ
  pub isr128 : ℕ
  pub timer_callback : ℕ
  pub keyboard_callback : ℕ
  pub syscall_handler : ℕ
  pub idt : ℕ
  pub tss : ℕ
  pub kernel_start : ℕ
  pub kernel_end : ℕ

-- the static variables of the whole kernel
pub record Kernel : Type 0 where
  pub shell : Shell
  pub gdt : GdtTable
  pub idt : IdtTable
  pub idt_ptr : IdtPtr
  pub interrupt_handlers : Handlers
  pub irq_handlers : Handlers
  pub tss : Tss
  pub ports : List Effect

abbrev pub on_machine : (Machine → Machine) → Kernel → Kernel
on_machine f k = record k { shell = record k.shell { machine = f k.shell.machine } }

-- the first message
abbrev pub booting : Kernel → Kernel
booting = on_machine λ m. say "Booting AstraOS...\n" (record m { screen = clear_screen m.screen })

module _ (names : Symbols) where
  -- the descriptor tables, the gates and the controllers
  unfoldable pub install_tables : Kernel → Kernel
  install_tables k =
      let (idt_ptr, empty) = idt_init names.idt k.idt in
      let (handlers, traps) = isr_install names.isr names.isr128 empty in
      record k {
        gdt = gdt_init k.gdt;
        idt = irq_install names.irq traps;
        idt_ptr = idt_ptr;
        interrupt_handlers = handlers;
        ports = k.ports ++ pic_remap;
      }

  -- `timer_init(100)` and `keyboard_init()`
  unfoldable pub install_devices : Kernel → Run Kernel
  install_devices k =
      timer_init names.timer_callback 100 k.shell.machine.timer k.irq_handlers
      >>= λ (timer, handlers, effects). done (
          on_machine (λ m. record m { timer = timer })
            (record k {
              irq_handlers = irq_register_handler 1 names.keyboard_callback handlers;
              ports = k.ports ++ effects;
            }))

  -- the heap, the task state segment, paging and the system calls
  unfoldable pub install_memory : Kernel → Kernel
  install_memory k =
      let (tss, gdt) = tss_install names.tss (names.kernel_end + 0x4000) k.gdt in
      on_machine
        (λ m. say "\nSyscall system ready (int 0x80)\n" (record m {
          heap = kmalloc_init (names.kernel_end + 0x1000) m.heap;
          paging = paging_init m.paging;
        }))
        (record k {
          gdt = gdt;
          tss = tss;
          interrupt_handlers = isr_register_handler 0x80 names.syscall_handler k.interrupt_handlers;
        })

  module _ (fuel : ℕ) (user_mode : ℕ → ℕ → Machine → Run (ℕ × Machine)) where
    -- the result of `kernel_exec_elf`, as a word
    abbrev pub init_code : Machine → Launch → Run (ℕ × Machine)
    init_code m l = elim l.jump [
      | none ↦ done (0xFFFFFFFF, record m { paging = l.paging; mem = l.mem })
      | some (entry, sp) ↦ user_mode entry sp (record m { paging = l.paging; mem = l.mem })
    ]

    -- the first program; the loader begins with `fat16_init`
    unfoldable pub run_init : Machine → Run (ℕ × Machine)
    unfolding fat16_files
    run_init m =
        kernel_exec_elf (fat16_files fuel) names.kernel_start names.kernel_end m.fs
          (codes "/BIN/INIT.ELF") m.paging m.mem
        >>= init_code (record m { fs = (fat16_init m.fs).1 })

    abbrev pub report_exit : ℕ × Machine → Run Machine
    report_exit (code, m) =
        let shown =
          put_uint code (say "\n[USERMODE] exited with code " m) >>= λ told. done (say "\n" told) in
        if leb (2 ^ 31) code then done (say "\nELF load failed: /BIN/INIT.ELF\n" m) else shown

    -- `kernel_main` from `kmalloc_init` on
    unfoldable pub start_shell : Kernel → Run Kernel
    start_shell devices = do
      let ready = install_memory devices
      exited ← run_init ready.shell.machine
      m ← report_exit exited
      done (record ready { shell = shell_init (record ready.shell { machine = m }) })

    -- `kernel_main`, up to its endless loop
    unfoldable pub kernel_main : Kernel → Run Kernel
    kernel_main k = install_devices (install_tables (booting k)) >>= start_shell
