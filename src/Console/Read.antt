-- ===== src/Console/Read.antt =====
-- What `consoleread` takes from the lines.
use csklub_os.Base.{ℕ, ◌+◌, ◌≤◌, ◌≡◌, List, [], ◌++◌, length}
use csklub_os.Console.{Console, returned, asleep, Line}
use csklub_os.Console.Edit.{ready, line, IsConsole}

-- What went out is the front of the lines. At most one character more is gone: a ^D, or one that
-- could not be copied out. A call that sleeps has taken all lines. The edited line is left alone.
pub record Took (k : Console) (done n : ℕ) (t : Line) : Type 0 where
  pub gone : List ℕ
  pub taken : ready k ≡ t.sent ++ gone ++ ready t.console
  pub one_gone : length gone ≤ 1
  pub limit : length t.sent ≤ n
  pub count : (m : ℕ) → t.ending ≡ returned m → m ≡ done + length t.sent
  pub sleeping : (m : ℕ) → t.ending ≡ asleep m → (m ≡ done + length t.sent) × (ready t.console ≡ [])
  pub edited : line t.console ≡ line k
  pub well_formed : IsConsole t.console
