-- ===== src/Kernel/Exec/Isolation.antt =====
-- The pages that ring 3 may touch when a program starts.
use astra_os.Base.{ℕ, ◌≡◌, ◌||◌, arith, if◌then◌else◌}
use astra_os.Memory.Paging.{Paging, paging_mark_user, paging_clear_user}
use astra_os.Memory.Paging.Range.{in_pages}
use astra_os.Memory.Paging.Access.{
  user_bit, other_bits, IsTable, mark_user-user_bit, clear_user-user_bit, protect_kernel-user_bit,
}
use astra_os.Kernel.Elf.{Image}
use astra_os.Kernel.Exec.{exec_paging, user_stack_base, user_stack_top}

module _ (kernel_start kernel_end : ℕ) (img : Image) (s : Paging) (words : IsTable s.table) where
  -- Before a program starts, a page is open to ring 3 if it belongs to the program's image or
  -- stack and not to the kernel; it is closed if it belongs to the kernel or to a part of the user
  -- window or of the stack that the program does not use; any other page is as it was. Frame,
  -- presence and writability are as they were everywhere.
  pub exec_paging-user_bit :
      (p : ℕ)
      → let e = (exec_paging kernel_start kernel_end img s).table p in
        (user_bit e ≡ (
          if in_pages kernel_start kernel_end p
          then 0
          else if in_pages user_stack_base user_stack_top p || in_pages img.low img.high p
          then 1
          else if in_pages 0x00200000 0x003F0000 p
          then 0
          else user_bit (s.table p)))
        × (other_bits e ≡ other_bits (s.table p))
  unfolding exec_paging
  exec_paging-user_bit p =
      let s1 = paging_clear_user 0x00200000 0x003F0000 s in
      let w1 = λ (q : ℕ). (clear_user-user_bit 0x00200000 0x003F0000 s words q).2 in
      let s2 = paging_clear_user user_stack_base user_stack_top s1 in
      let w2 = λ (q : ℕ). (clear_user-user_bit user_stack_base user_stack_top s1 w1 q).2 in
      let s3 = paging_mark_user img.low img.high s2 in
      let w3 = λ (q : ℕ). (mark_user-user_bit img.low img.high s2 w2 q).2 in
      let s4 = paging_mark_user user_stack_base user_stack_top s3 in
      let w4 = λ (q : ℕ). (mark_user-user_bit user_stack_base user_stack_top s3 w3 q).2 in
      ground (
        arith,
        clear_user-user_bit 0x00200000 0x003F0000 s words p,
        clear_user-user_bit user_stack_base user_stack_top s1 w1 p,
        mark_user-user_bit img.low img.high s2 w2 p,
        mark_user-user_bit user_stack_base user_stack_top s3 w3 p,
        protect_kernel-user_bit kernel_start kernel_end s4 w4 p,
      )
