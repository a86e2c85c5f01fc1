-- ===== src/Elf/Tests.antt =====
-- src/keyboard.c: the theorem on a machine with no page mapped.
use cindy_os.Base.{arith, Returns}
use cindy_os.Paging.Tests.{bare, bare-IsPaging}
use cindy_os.Elf.{map_pages}
use cindy_os.Elf.Pages.{Mapped, map_pages_lem}

map_pages_lem_example :
    Returns
      (λ (done, s'). Mapped 0x400000 0x402000 bare done s')
      (map_pages 3 0x400000 0x402000 bare)
map_pages_lem_example =
    map_pages_lem 3 0x400000 0x402000 bare bare-IsPaging (omega arith) (omega arith) (omega arith)
      (omega arith) (omega arith)
