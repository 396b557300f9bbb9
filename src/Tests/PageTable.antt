-- ===== src/Tests/PageTable.antt =====
-- src/memory/paging.c: a table with two pages.
use astra_os.Base.{◌<◌, ◌^◌, ◌≡◌, refl, arith, true}
use astra_os.Memory.Paging.{Paging, paging_init, paging_mark_user, paging_clear_user}
use astra_os.Memory.Paging.Access.{
  user_bit, other_bits, paging_init-identity, mark_user-user_bit, clear_user-user_bit,
}

abbrev all_open : Paging
all_open = record {
  directory = λ d. 7;
  table = λ p. 7;
  directory_addr = 0x5000;
  table_addr = 0x6000;
  cr3 = 0;
  enabled = true;
}

abbrev all_closed : Paging
all_closed = record all_open { table = λ p. 3 }

paging_init-identity_example :
    let s = paging_init all_open in
    (s.table 2 ≡ 8195) × (s.directory 2 ≡ 2) × (s.cr3 ≡ 0x5000) × (s.enabled ≡ true)
paging_init-identity_example = paging_init-identity all_open 2 (omega arith) refl

-- page 1 holds the last byte of the range
opened_pages :
    let e = (paging_mark_user 0 0x1001 all_closed).table 1 in
    (user_bit e ≡ 1) × (other_bits e ≡ 3) × (e < 2 ^ 32)
opened_pages = mark_user-user_bit 0 0x1001 all_closed (λ p. omega arith) 1

closed_pages :
    let e = (paging_clear_user 0x2000 0x3000 all_open).table 1 in
    (user_bit e ≡ 1) × (other_bits e ≡ 3) × (e < 2 ^ 32)
closed_pages = clear_user-user_bit 0x2000 0x3000 all_open (λ p. omega arith) 1
