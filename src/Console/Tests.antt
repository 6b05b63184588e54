-- ===== src/Console/Tests.antt =====
-- A console with one complete line, `a` and a newline, and `b` behind it.
use csklub_os.Base.{◌≡◌, arith, ◌==◌, if◌then◌else◌}
use csklub_os.Console.{Console, consoleintr}
use csklub_os.Console.Edit.{IsConsole}
use csklub_os.Console.Typed.{text, typed, consoleintr-typed}

abbrev one_line : Console
one_line = record {
  buf = λ i. if i == 0 then 97 else if i == 1 then 10 else if i == 2 then 98 else 0;
  r = 0;
  w = 2;
  e = 3;
}

one_line-IsConsole : IsConsole one_line
one_line-IsConsole = record {
  small_r = omega arith;
  small_w = omega arith;
  small_e = omega arith;
  fits = omega arith;
  one_line = (λ z. absurd (omega (arith, z)), tt);
}

consoleintr-typed_example :
    (text (consoleintr 127 one_line).console ≡ typed 127 (text one_line))
    × IsConsole (consoleintr 127 one_line).console
consoleintr-typed_example = consoleintr-typed 127 one_line one_line-IsConsole
