-- ===== src/Proc/Wake.antt =====
-- Whom `wakeup` wakes.
use csklub_os.Base.{
  ℕ, zero, suc, ◌+◌, ◌≡◌, refl, ◌∙◌, ap, arith, ◌&&◌, List, [], ◌∷◌, some, ◌==◌, ◌!=◌,
  if◌then◌else◌, get_elem?, fun_ext,
}
use mathlib.Core.Option
use csklub_os.Proc.{Proc, wake, wakeup, wakeup_loop, is_sleeping, runnable}

wakeup_loop-get :
    (ps : List Proc) (chan me here i : ℕ)
    → get_elem? (wakeup_loop chan me here ps) i
      ≡ Option.map (λ p. if here + i != me then wake chan p else p) (get_elem? ps i)
unfolding wakeup_loop
wakeup_loop-get [] chan me here i = refl
wakeup_loop-get (p ∷ ps) chan me here zero =
    ap (λ k. some (if k != me then wake chan p else p)) (omega arith)
wakeup_loop-get (p ∷ ps) chan me here (suc i) =
    wakeup_loop-get ps chan me (here + 1) i
    ∙ ap (λ k. Option.map (λ q. if k != me then wake chan q else q) (get_elem? ps i)) (omega arith)

-- `wakeup` makes a process runnable if it sleeps on the channel and is not the caller, and leaves
-- all else of the table alone.
pub wakeup-get :
    (chan me i : ℕ) (ps : List Proc)
    → get_elem? (wakeup chan me ps) i
      ≡ Option.map
          (λ p.
            if 1 + i != me && (is_sleeping p && p.chan == chan)
            then record p { state = runnable }
            else p)
          (get_elem? ps i)
unfolding wakeup wake
wakeup-get chan me i ps =
    wakeup_loop-get ps chan me 1 i
    ∙ ap (λ (f : Proc → Proc). Option.map f (get_elem? ps i)) (fun_ext λ p. ground arith)
