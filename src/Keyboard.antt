-- ===== src/Keyboard.antt =====
-- src/keyboard.c: the state that the keyboard and the shell work on. `input_buffer`, 256 bytes of the
-- kernel's memory, is in `machine.ram` at an address that the linker chooses.
pub mod Words
pub mod Commands
pub mod Shell
pub mod Handler
mod Tests
use cindy_os.Base.{ℕ, zero, suc, ◌+◌, ◌==◌, if◌then◌else◌, List, [], ◌∷◌, Run, ok, fault, ◌>>=◌}
use cindy_os.Base.Ram.{Ram}
use cindy_os.Paging.{Machine}
use cindy_os.Process.{Kernel}
use cindy_os.Ata.{Disk}
use cindy_os.Fat16.{Volume}
use cindy_os.Screen.{Screen, print}
use cindy_os.Screen.Numbers.{print_int}

pub record World : Type 0 where
  pub machine : Machine
  pub kernel : Kernel
  pub screen : Screen
  pub disk : Disk
  pub volume : Volume
  pub initrd_address : ℕ
  pub timer_ticks : ℕ
  pub shift_pressed : ℕ
  pub caps : ℕ
  pub buffer_index : ℕ

-- `print`, and `print_int`, of the screen in the state.
abbrev pub say : List ℕ → World → World
say msg w = record w { screen = print msg w.screen }

abbrev pub say_int : ℕ → World → Run World
say_int num w = do s ← print_int num w.screen; ok (record w { screen = s })

-- The string in an array of which `room` places are left; without a 0 in them the array is overrun.
unfoldable pub chars_at : ℕ → Ram → ℕ → Run (List ℕ)
chars_at zero m a = fault
chars_at (suc room) m a =
    let rest : Run (List ℕ) = chars_at room m (a + 1) >>= λ cs. ok (m a ∷ cs) in
    if m a == 0 then ok [] else rest
