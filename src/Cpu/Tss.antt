-- ===== src/Cpu/Tss.antt =====
-- src/cpu/tss.c: the task state segment.
use astra_os.Base.{ℕ, ◌-◌}
use astra_os.Cpu.Gdt.{GdtTable, gdt_set_tss}

-- the fields of `tss_entry_t` that are not always 0
pub record Tss : Type 0 where
  pub esp0 : ℕ
  pub ss0 : ℕ
  pub es : ℕ
  pub cs : ℕ
  pub ss : ℕ
  pub ds : ℕ
  pub fs : ℕ
  pub gs : ℕ
  pub iomap_base : ℕ

unfoldable pub tss_set_kernel_stack : ℕ → Tss → Tss
tss_set_kernel_stack stack t = record t { esp0 = stack }

-- `sizeof(tss_entry_t)`
abbrev pub tss_size : ℕ
tss_size = 104

-- The segment and the descriptor table, with the address of the segment; what `memset` clears and
-- no line sets stays 0.
unfoldable pub tss_install : ℕ → ℕ → GdtTable → Tss × GdtTable
unfolding gdt_set_tss
tss_install address kernel_stack_top gdt = (
  record {
    esp0 = kernel_stack_top;
    ss0 = 0x10;
    es = 0x23;
    cs = 0x1B;
    ss = 0x23;
    ds = 0x23;
    fs = 0x23;
    gs = 0x23;
    iomap_base = tss_size;
  },
  gdt_set_tss address (tss_size - 1) gdt,
)
