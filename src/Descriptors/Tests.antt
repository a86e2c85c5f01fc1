-- ===== src/Descriptors/Tests.antt =====
-- src/gdt.c: the theorem on one descriptor.
use cindy_os.Base.{arith}
use cindy_os.Descriptors.{write_tss_descriptor}
use cindy_os.Descriptors.Encoding.{DecodesTo, write_tss_descriptor_lem}

write_tss_descriptor_lem_example : DecodesTo 0x123456 103 (write_tss_descriptor 0x123456 103)
write_tss_descriptor_lem_example = write_tss_descriptor_lem 0x123456 103 (omega arith) (omega arith)
