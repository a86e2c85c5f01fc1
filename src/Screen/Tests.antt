-- ===== src/Screen/Tests.antt =====
-- src/screen.c: the theorems on a blank screen with the cursor in the last cell.
use cindy_os.Base.{Returns, arith, [], ◌∷◌}
use cindy_os.Screen.{Screen, scroll_screen, print}
use cindy_os.Screen.Numbers.{int_text}
use cindy_os.Screen.Numbers.Laws.{Denotes, int_text_lem}
use cindy_os.Screen.Scroll.{Scrolled, scroll_screen_lem}
use cindy_os.Screen.Cursor.{IsScreen, Printed, print_lem}

abbrev blank : Screen
blank = record { video = λ x. 32; cursor_row = 24; cursor_col = 79; ports = [] }

blank-IsScreen : IsScreen blank
blank-IsScreen = record { row = omega arith; col = omega arith; bytes = λ x. omega arith }

scroll_screen_lem_example : Scrolled blank (scroll_screen blank)
scroll_screen_lem_example = scroll_screen_lem blank (λ x. omega arith)

print_lem_example : Printed blank (print (72 ∷ 105 ∷ 10 ∷ 8 ∷ []) blank)
print_lem_example = print_lem (72 ∷ 105 ∷ 10 ∷ 8 ∷ []) blank blank-IsScreen

int_text_lem_example : Returns (Denotes 4294967254) (int_text 4294967254)
int_text_lem_example = int_text_lem 4294967254 (omega arith) (omega arith)
