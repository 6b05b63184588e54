-- ===== src/Pipe/Queue.antt =====
-- A pipe as a queue of at most PIPESIZE bytes.
use csklub_os.Base.{
  ℕ, zero, suc, ◌+◌, ◌-◌, ◌%◌, ◌^◌, ◌≤◌, ◌<◌, ◌≡◌, refl, ◌∙◌, ap, arith, true, false, List, [], ◌∷◌,
  ◌++◌, length, ◌==◌, eq→==, ne→==, if◌then◌else◌,
}
use csklub_os.Pipe.{Pipe, pipe_size, put, front, advance, is_full, is_empty}

-- The number of bytes held: the difference of two counters that wrap.
abbrev pub held : Pipe → ℕ
held p = (p.nwrite + 2 ^ 32 - p.nread) % 2 ^ 32

-- The `n` bytes from the counter value `r` on.
abbrev pub window : (ℕ → ℕ) → ℕ → ℕ → List ℕ
window buf r zero = []
window buf r (suc n) = buf (r % pipe_size) ∷ window buf ((r + 1) % 2 ^ 32) n

-- The bytes held, the oldest first.
abbrev pub contents : Pipe → List ℕ
contents p = window p.buf p.nread (held p)

pub record IsValid (p : Pipe) : Type 0 where
  pub read_small : p.nread < 2 ^ 32
  pub write_small : p.nwrite < 2 ^ 32
  pub bounded : held p ≤ pipe_size

length-window : (buf : ℕ → ℕ) (r n : ℕ) → length (window buf r n) ≡ n
length-window buf r zero = refl
length-window buf r (suc n) = ap suc (length-window buf ((r + 1) % 2 ^ 32) n)

pub length-contents : (p : Pipe) → length (contents p) ≡ held p
length-contents p = length-window p.buf p.nread (held p)

-- A write at the slot behind the window adds its byte to it.
window-put :
    (buf : ℕ → ℕ) (w ch n r : ℕ)
    → n < pipe_size
    → r < 2 ^ 32
    → w ≡ (r + n) % 2 ^ 32
    → window (λ k. if k == w % pipe_size then ch else buf k) r (suc n) ≡ window buf r n ++ ch ∷ []
window-put buf w ch zero r lt small e = rw (eq→== (r % pipe_size) (w % pipe_size) (omega arith))
window-put buf w ch (suc n) r lt small e =
    rw (ne→== (r % pipe_size) (w % pipe_size) (omega arith)) (
      ap (◌∷◌ (buf (r % pipe_size)))
        (window-put buf w ch n ((r + 1) % 2 ^ 32) (omega arith) (omega arith) (omega arith)))

pub put-IsValid : (p : Pipe) (ch : ℕ) → IsValid p → is_full p ≡ false → IsValid (put p ch)
unfolding put
put-IsValid p ch v f = ground arith

pub contents-put :
    (p : Pipe) (ch : ℕ)
    → IsValid p
    → is_full p ≡ false
    → contents (put p ch) ≡ contents p ++ ch ∷ []
unfolding put
contents-put p ch v f =
    let more : held (put p ch) ≡ suc (held p) = ground arith in
    ap (window (put p ch).buf p.nread) more
    ∙ window-put p.buf p.nwrite ch (held p) p.nread (ground arith) v.read_small (ground arith)

pub advance-IsValid : (p : Pipe) → IsValid p → is_empty p ≡ false → IsValid (advance p)
unfolding advance
advance-IsValid p v f = ground arith

pub contents-advance :
    (p : Pipe) → IsValid p → is_empty p ≡ false → contents p ≡ front p ∷ contents (advance p)
unfolding advance front
contents-advance p v f =
    let less : held p ≡ suc (held (advance p)) = ground arith in ap (window p.buf p.nread) less

pub full-held : (p : Pipe) → IsValid p → is_full p ≡ true → held p ≡ pipe_size
full-held p v f = ground arith

pub empty-held : (p : Pipe) → IsValid p → is_empty p ≡ true → contents p ≡ []
empty-held p v e = let z : held p ≡ 0 = ground arith in ap (window p.buf p.nread) z
