-- ===== src/Descriptor.antt =====
-- operating_system_engineering/labs/kernel/sysfile.c: the descriptors of a process, over the table of open
-- files, and `pipealloc` of kernel/pipe.c. A descriptor is the bit pattern of an `int`. `none` is -1, or a null
-- pointer.
pub mod Slots
pub mod Counts
pub mod Calls
pub mod PipeEnds
pub mod SysPipe
mod Tests
use csklub_os.Base.{
  ℕ, zero, suc, ◌+◌, Bool, true, false, not, List, [], ◌∷◌, Option, none, some, Outcome, ok, panic,
  ◌>>=◌, ltb, if◌then◌else◌, get_elem?, set,
}
use csklub_os.FileTable.{File, change, fd_pipe, filealloc, filedup, fileclose, Closing}

-- NOFILE.
abbrev pub descriptor_count : ℕ
descriptor_count = 16

-- What a call comes to: its result, `p->ofile`, the table, and what `fileclose` goes on with.
pub record After {ℓ} (A : Type ℓ) : Type ℓ where
  pub result : Option A
  pub ofile : List (Option ℕ)
  pub files : List File
  pub closings : List Closing

unfoldable pub argfd : ℕ → List (Option ℕ) → Option ℕ
argfd fd ofile =
    if ltb fd descriptor_count then elim (get_elem? ofile fd) [ none ↦ none | some o ↦ o ] else none

-- The first descriptor that is not in use.
unfoldable pub free_slot : List (Option ℕ) → Option ℕ
free_slot [] = none
free_slot (none ∷ os) = some 0
free_slot (some f ∷ os) = elim (free_slot os) [ none ↦ none | some fd ↦ some (suc fd) ]

unfoldable pub fdalloc : ℕ → List (Option ℕ) → Option (ℕ × List (Option ℕ))
unfolding free_slot
fdalloc f ofile = elim (free_slot ofile) [
  | none ↦ none
  | some fd ↦ some (fd, set ofile fd (some f))
]

abbrev pub failed {ℓ} : {A : Type ℓ} → List (Option ℕ) → List File → List Closing → After A
failed os fs cs = record { result = none; ofile = os; files = fs; closings = cs }

abbrev pub succeeded {ℓ} : {A : Type ℓ} → A → List (Option ℕ) → List File → List Closing → After A
succeeded a os fs cs = record { result = some a; ofile = os; files = fs; closings = cs }

unfoldable pub sys_dup : ℕ → List (Option ℕ) → List File → Outcome (After ℕ)
sys_dup fd ofile files = elim (argfd fd ofile) [
  | none ↦ ok (failed ofile files [])
  | some f ↦ elim (fdalloc f ofile) [
    | none ↦ ok (failed ofile files [])
    | some (new, os) ↦ filedup f files >>= (λ fs. ok (succeeded new os fs []))
  ]
]

-- The result is 0.
unfoldable pub sys_close : ℕ → List (Option ℕ) → List File → Outcome (After ℕ)
sys_close fd ofile files = elim (argfd fd ofile) [
  | none ↦ ok (failed ofile files [])
  | some f ↦ fileclose f files >>= (λ r. ok (succeeded 0 (set ofile fd none) r.1 (r.0 ∷ [])))
]

-- The fields of one end of a pipe.
abbrev pub pipe_end : ℕ → Bool → File → File
pipe_end p w f = record f { kind = fd_pipe; readable = not w; writable = w; pipe = p }

-- `pipealloc`, with the result of `kalloc`.
unfoldable pub pipealloc :
    Option ℕ → List File → Outcome (Option (ℕ × ℕ) × List File × List Closing)
pipealloc mem files = elim (filealloc files) [
  | none ↦ ok (none, files, [])
  | some (f0, fs) ↦ elim (filealloc fs) [
    | none ↦ fileclose f0 fs >>= (λ r. ok (none, r.1, r.0 ∷ []))
    | some (f1, gs) ↦ elim mem [
      | none ↦ fileclose f0 gs >>= (λ r. fileclose f1 r.1 >>= (λ q. ok (none, q.1, r.0 ∷ q.0 ∷ [])))
      | some p ↦
          ok (some (f0, f1), change (pipe_end p true) f1 (change (pipe_end p false) f0 gs), [])
    ]
  ]
]

-- Both ends are closed again, and the call fails.
unfoldable pub close_both : ℕ → ℕ → List (Option ℕ) → List File → Outcome (After (ℕ × ℕ))
close_both rf wf ofile files =
    fileclose rf files >>= (λ r. fileclose wf r.1 >>= (λ q. ok (failed ofile q.1 (r.0 ∷ q.0 ∷ []))))

-- `copied` tells whether both descriptors could be copied to the user.
unfoldable pub sys_pipe : Option ℕ → Bool → List (Option ℕ) → List File → Outcome (After (ℕ × ℕ))
unfolding close_both
sys_pipe mem copied ofile files = pipealloc mem files >>= (λ r. elim r.0 [
  | none ↦ ok (failed ofile r.1 r.2)
  | some (rf, wf) ↦ elim (fdalloc rf ofile) [
    | none ↦ close_both rf wf ofile r.1
    | some (fd0, os) ↦ elim (fdalloc wf os) [
      | none ↦ close_both rf wf (set os fd0 none) r.1
      | some (fd1, ps) ↦
          if copied
          then ok (succeeded (fd0, fd1) ps r.1 [])
          else close_both rf wf (set (set ps fd0 none) fd1 none) r.1
    ]
  ]
])
