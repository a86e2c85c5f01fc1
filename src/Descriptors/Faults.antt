-- ===== src/Descriptors/Faults.antt =====
-- src/idt.c: `fault_handler`, with what it prints; afterwards the processor is halted.
use cindy_os.Base.{
  ℕ, ltb, ◌==◌, ◌!=◌, if◌then◌else◌, bit_and, List, [], ◌∷◌, get_or, text, Bool, true, false,
}
use cindy_os.Screen.{Screen, print}
use cindy_os.Screen.Numbers.{print_hex}

-- include/idt.h
pub record Registers : Type 0 where
  pub ds : ℕ
  pub edi : ℕ
  pub esi : ℕ
  pub ebp : ℕ
  pub esp : ℕ
  pub ebx : ℕ
  pub edx : ℕ
  pub ecx : ℕ
  pub eax : ℕ
  pub int_no : ℕ
  pub err_code : ℕ
  pub eip : ℕ
  pub cs : ℕ
  pub eflags : ℕ
  pub useresp : ℕ
  pub ss : ℕ

-- `exception_messages`; the last 13 are "Reserved".
unfoldable pub exception_message : ℕ → List ℕ
exception_message n =
    get_or
      (text "Division By Zero"
        ∷ text "Debug"
        ∷ text "Non Maskable Interrupt"
        ∷ text "Breakpoint"
        ∷ text "Into Detected Overflow"
        ∷ text "Out of Bounds"
        ∷ text "Invalid Opcode"
        ∷ text "No Coprocessor"
        ∷ text "Double Fault"
        ∷ text "Coprocessor Segment Overrun"
        ∷ text "Bad TSS"
        ∷ text "Segment Not Present"
        ∷ text "Stack Fault"
        ∷ text "General Protection Fault"
        ∷ text "Page Fault"
        ∷ text "Unknown Interrupt"
        ∷ text "Coprocessor Fault"
        ∷ text "Alignment Check"
        ∷ text "Machine Check"
        ∷ [])
      n (text "Reserved")

-- What is printed of a page fault; `cr2` is the address.
unfoldable pub page_fault : ℕ → ℕ → Screen → Screen
page_fault cr2 err_code s =
    let address = print (text "\n") (print_hex cr2 (print (text "  CR2 (fault addr): ") s)) in
    let present =
      print (if bit_and err_code 1 != 0 then text "protection violation" else text "not present")
        (print (text "  Cause: ") address) in
    let write = print (if bit_and err_code 2 != 0 then text ", write" else text ", read") present in
    let mode =
      print (if bit_and err_code 4 != 0 then text ", user mode" else text ", kernel mode") write in
    print (text "\n") mode

-- The screen, and whether the processor was halted.
unfoldable pub fault_handler : ℕ → Registers → Screen → Screen × Bool
fault_handler cr2 regs s =
    let named =
      print (text "\n") (print (exception_message regs.int_no) (print (text "EXCEPTION: ") s)) in
    let at = print (text "  CS:  ") (print_hex regs.eip (print (text "  EIP: ") named)) in
    let shown = print (text "\n") (
      print_hex regs.err_code
        (print (text "  ERR: ") (print (text "\n") (print_hex regs.cs at)))) in
    let whole = if regs.int_no == 14 then page_fault cr2 regs.err_code shown else shown in
    if ltb regs.int_no 32 then (print (text "System Halted!\n") whole, true) else (s, false)
