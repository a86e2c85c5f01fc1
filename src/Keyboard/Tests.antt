-- ===== src/Keyboard/Tests.antt =====
-- src/keyboard.c: the theorems on the line ` ls  a`, typed into the buffer at 0x9000.
use cindy_os.Base.{ℕ, ◌==◌, arith, refl, List, [], if◌then◌else◌, text, Returns, ok, none, ◌≢◌}
use cindy_os.Base.Ram.{Ram}
use cindy_os.CString.Strings.{HoldsString}
use cindy_os.Memory.Tests.{two_free}
use cindy_os.Fat16.{load_bpb}
use cindy_os.Keyboard.{World}
use cindy_os.Keyboard.Words.{split}
use cindy_os.Keyboard.Words.Laws.{Split, split_lem}
use cindy_os.Keyboard.Handler.{ascii_of, kbd_us, handle_keyboard_interrupt}
use cindy_os.Keyboard.Handler.Line.{IsLine, Edited, handle_keyboard_interrupt_lem}

abbrev line : List ℕ
line = text " ls  a"

abbrev ram : Ram
ram x =
    if x == 0x9000
    then b' '
    else if x == 0x9001
    then b'l'
    else if x == 0x9002
    then b's'
    else if x == 0x9003
    then b' '
    else if x == 0x9004
    then b' '
    else if x == 0x9005
    then b'a'
    else 0

abbrev world : World
world = record {
  machine = record { memory = two_free; ram = ram; page_direc = 0x64000; cr3 = 0; cr0 = 0 };
  kernel = record {
    procs = λ p. none;
    curr_proc = 0;
    ready_head = 0;
    ready_tail = 0;
    next_pid = 1;
  };
  screen = record { video = λ x. 0; cursor_row = 0; cursor_col = 0; ports = [] };
  disk = λ s i. 0;
  volume = record {
    g_bpb = load_bpb (λ x. 0);
    fat_start_sector = 0;
    root_dir_start = 0;
    root_dir_sectors = 0;
    data_start_sector = 0;
  };
  initrd_address = 0;
  timer_ticks = 0;
  shift_pressed = 0;
  caps = 0;
  buffer_index = 6;
}

line-held : HoldsString ram 0x9000 line
line-held = (
  refl,
  omega arith,
  omega arith,
  (
    refl,
    omega arith,
    omega arith,
    (
      refl,
      omega arith,
      omega arith,
      (
        refl,
        omega arith,
        omega arith,
        (refl, omega arith, omega arith, (refl, omega arith, omega arith, refl)),
      ),
    ),
  ),
)

split_lem_example :
    Returns (λ (argv, m'). Split 16 0x9000 line ram argv m') (split 16 0x9100 0x9000 ram)
split_lem_example = split_lem 16 0x9100 0x9000 ram line line-held (omega arith)

world-IsLine : IsLine 0x9000 line world
world-IsLine = record {
  held = line-held;
  index = refl;
  fits = omega arith;
  zeros = λ x p q. ground arith;
}

-- The key `q`.
not_enter : ascii_of 16 world ≢ b'\n'
unfolding ascii_of kbd_us
not_enter = omega arith

handle_keyboard_interrupt_lem_example :
    Returns
      (λ w'. (line' : List ℕ) × Edited line line' × IsLine 0x9000 line' w')
      (handle_keyboard_interrupt
        (λ m a. m.ram a)
        (λ m a x. m)
        (λ stack entry w. ok w)
        10
        0x9000
        16
        world)
handle_keyboard_interrupt_lem_example =
    handle_keyboard_interrupt_lem (λ m a. m.ram a) (λ m a x. m) (λ stack entry w. ok w) 10 0x9000 16
      line world not_enter world-IsLine
