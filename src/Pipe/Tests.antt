-- ===== src/Pipe/Tests.antt =====
-- A pipe whose counters are about to wrap, with two bytes in it.
use csklub_os.Base.{
  ℕ, ◌-◌, ◌^◌, ◌≡◌, refl, Bool, true, false, List, [], ◌∷◌, ltb, if◌then◌else◌, Option, none, some,
}
use csklub_os.Pipe.{Pipe, ReadEnd, WriteEnd, pipewrite, piperead}
use csklub_os.Pipe.Queue.{contents}
use csklub_os.Pipe.Fifo.{Run, writes, reads, closes}

abbrev near_wrap : Pipe
near_wrap = record {
  buf = λ k. k;
  nread = 2 ^ 32 - 2;
  nwrite = 0;
  readopen = true;
  writeopen = true;
}

-- Three bytes can be read from address 100 on.
abbrev any_byte : ℕ → Option ℕ
any_byte a = if ltb a 103 then some a else none

abbrev any_copy : ℕ → ℕ → Bool
any_copy a c = true

near_wrap-contents : contents near_wrap ≡ 510 ∷ 511 ∷ []
near_wrap-contents = refl

pipewrite_runs :
    ((pipewrite any_byte false 100 5 0 near_wrap).ending ≡ WriteEnd.returned 3)
    × (contents (pipewrite any_byte false 100 5 0 near_wrap).pipe
        ≡ 510 ∷ 511 ∷ 100 ∷ 101 ∷ 102 ∷ [])
unfolding pipewrite
pipewrite_runs = (refl, refl)

piperead_runs :
    ((piperead any_copy false 0 5 near_wrap).sent ≡ 510 ∷ 511 ∷ [])
    × ((piperead any_copy false 0 5 near_wrap).ending ≡ ReadEnd.returned 2)
unfolding piperead
piperead_runs = (refl, refl)

abbrev runs : List Run
runs = writes any_byte false 100 5 0 ∷ reads any_copy false 0 4 ∷ closes true ∷ []
