-- ===== src/Vm/Map.antt =====
-- What `mappages` maps.
use csklub_os.Base.{
  ℕ, zero, suc, ◌+◌, ◌-◌, ◌*◌, ◌/◌, ◌%◌, ◌^◌, ◌≤◌, ◌<◌, ◌≡◌, ◌⊎◌, inl, inr, refl, sym, ◌∙◌, ap,
  subst, arith, Bool, true, false, ◌&&◌, List, [], ok, ltb, leb, ◌==◌, ◌!=◌, if◌then◌else◌,
  Bool-cases,
}
use csklub_os.Kalloc.{Kmem, page_size}
use csklub_os.Vm.{max_va, is_valid, make_pte, map_page, map_loop, mappages}
use csklub_os.Vm.Tree.{leaf}
use csklub_os.Vm.Descend.{Space}
use csklub_os.Vm.Entry.{Mapped1, map_page-Mapped1}

-- Is the address in one of the `n` pages from `va` on?
abbrev pub in_pages : ℕ → ℕ → ℕ → Bool
in_pages va n vb = leb va vb && ltb vb (va + n * 4096)

-- What the loop comes to: the pages map to those from `pa` on, and nothing else changes, or
-- no page was left for a table.
record MappedPages (e root : ℕ) (s : Kmem) (va n pa perm : ℕ) (r : Bool × Kmem) : Type 0 where
  pub free : List ℕ
  pub space : Space e root r.1 free
  pub done :
      r.0 ≡ true
      → (vb : ℕ) → vb < max_va
      → leaf r.1.memory root vb
        ≡ (if in_pages va n vb then make_pte (pa + (vb - va)) perm else leaf s.memory root vb)
  pub short :
      r.0 ≡ false
      → (free ≡ [])
        × ((vb : ℕ)
            → vb < max_va
            → in_pages va n vb ≡ false
            → leaf r.1.memory root vb ≡ leaf s.memory root vb)

-- The entry is valid, has the other flags of `perm`, and takes the address `vb` to `to`: the bits from 10 on are
-- the number of a page, and the last 12 bits of the address stay.
pub record Translates (vb to perm pte : ℕ) : Type 0 where
  pub address : pte / 2 ^ 10 * 2 ^ 12 + vb % 2 ^ 12 ≡ to
  pub valid : pte % 2 ≡ 1
  pub flags : pte % 2 ^ 10 / 2 ≡ perm / 2

make_pte-Translates :
    (vb to perm : ℕ)
    → vb % 4096 ≡ to % 4096
    → perm < 2 ^ 10
    → Translates vb to perm (make_pte to perm)
unfolding make_pte
make_pte-Translates vb to perm same small = record {
  address = ground (arith, same, small);
  valid = ground (arith, small);
  flags = ground (arith, small);
}

-- What `mappages` comes to.
pub record Mapped (e root : ℕ) (s : Kmem) (va size pa perm : ℕ) (r : Bool × Kmem) : Type 0 where
  pub free : List ℕ
  pub space : Space e root r.1 free
  pub done :
      r.0 ≡ true
      → (vb : ℕ) → va ≤ vb
      → vb < va + size
      → Translates vb (pa + (vb - va)) perm (leaf r.1.memory root vb)
  pub kept :
      (vb : ℕ)
      → vb < max_va
      → (vb < va) ⊎ (va + size ≤ vb)
      → leaf r.1.memory root vb ≡ leaf s.memory root vb
  pub short : r.0 ≡ false → free ≡ []

-- The entry is the same for all addresses of a page.
make_pte-page :
    (pa va vb perm : ℕ)
    → pa % 4096 ≡ 0
    → va % 4096 ≡ 0
    → vb / 4096 ≡ va / 4096
    → make_pte (pa + (vb - va)) perm ≡ make_pte pa perm
unfolding make_pte
make_pte-page pa va vb perm hp hv e =
    let q : (pa + (vb - va)) / 4096 ≡ pa / 4096 = omega (arith, hp, hv, e) in rw q refl

-- One page, and then the rest.
one_more :
    (e root : ℕ) (s t u : Kmem) (n va pa perm : ℕ) (b : Bool)
    → va % 4096 ≡ 0
    → pa % 4096 ≡ 0
    → Mapped1 e root s va (make_pte pa perm) (true, t)
    → MappedPages e root t (va + page_size) n (pa + page_size) perm (b, u)
    → MappedPages e root s va (suc n) pa perm (b, u)
one_more e root s t u n va pa perm b av aligned x rest = record {
  free = rest.free;
  space = rest.space;
  done = λ h vb lb.
      all h vb lb (Bool-cases (vb / 4096 == va / 4096)) (Bool-cases (in_pages (va + 4096) n vb));
  short = λ h. (
    (rest.short h).0,
    λ vb lb o.
        (rest.short h).1 vb lb (ground (arith, o))
        ∙ x.done refl vb lb
        ∙ (let other : (vb / 4096 == va / 4096) ≡ false = ground (arith, o, av) in rw other refl),
  );
}
  where
    all :
        b ≡ true
        → (vb : ℕ) → vb < max_va
        → ((vb / 4096 == va / 4096) ≡ true) ⊎ ((vb / 4096 == va / 4096) ≡ false)
        → (in_pages (va + 4096) n vb ≡ true) ⊎ (in_pages (va + 4096) n vb ≡ false)
        → leaf u.memory root vb ≡ (
            if in_pages va (suc n) vb
            then make_pte (pa + (vb - va)) perm
            else leaf s.memory root vb)
    all h vb lb (inl here) (inl later) = absurd (ground (arith, here, later, av))
    all h vb lb (inl here) (inr not_later) =
        let within : in_pages va (suc n) vb ≡ true = ground (arith, here, av) in
        rest.done h vb lb
        ∙ rw (not_later, within)
            (x.done refl vb lb
              ∙ rw here (sym (make_pte-page pa va vb perm aligned av (ground (arith, here)))))
    all h vb lb (inr not_here) (inl later) =
        let within : in_pages va (suc n) vb ≡ true = ground (arith, later) in
        let same : pa + page_size + (vb - (va + page_size)) ≡ pa + (vb - va) =
          ground (arith, later) in
        rest.done h vb lb ∙ rw (later, within) (ap (λ y. make_pte y perm) same)
    all h vb lb (inr not_here) (inr not_later) =
        let without : in_pages va (suc n) vb ≡ false = ground (arith, not_here, not_later, av) in
        rest.done h vb lb ∙ rw (not_later, without) (x.done refl vb lb ∙ rw not_here refl)

map_loop-MappedPages :
    (e root : ℕ) (s : Kmem) (free : List ℕ) (n va pa perm : ℕ)
    → Space e root s free
    → va % 4096 ≡ 0
    → pa % 4096 ≡ 0
    → va + n * 4096 ≤ max_va
    → pa + n * 4096 ≤ 2 ^ 64
    → perm < 2 ^ 10
    → ((vb : ℕ) → va ≤ vb → vb < va + n * 4096 → is_valid (leaf s.memory root vb) ≡ false)
    → (r : Bool × Kmem) × (map_loop root n va pa perm s ≡ ok r)
      × MappedPages e root s va n pa perm r
unfolding map_loop
map_loop-MappedPages e root s free zero va pa perm w av aligned lv lp small empty = (
  (true, s),
  refl,
  record {
    free = free;
    space = w;
    done = λ h vb lb. let out : in_pages va 0 vb ≡ false = ground arith in rw out refl;
    short = λ h. absurd (cc h);
  },
)
map_loop-MappedPages e root s free (suc n) va pa perm w av aligned lv lp small empty =
    let (r, q, x) =
      map_page-Mapped1 e root s free va pa perm w (omega (arith, lv)) (omega (arith, lp)) small
        (empty va (omega arith) (omega arith)) in
    after_page r q x (λ t free' w'.
      map_loop-MappedPages e root t free' n (va + page_size) (pa + page_size) perm w'
        (omega (arith, av)) (omega (arith, aligned)) (omega (arith, lv)) (omega (arith, lp)) small)
  where
    after_page :
        (r : Bool × Kmem)
        → map_page root va pa perm s ≡ ok r
        → Mapped1 e root s va (make_pte pa perm) r
        → ((t : Kmem) (free' : List ℕ)
            → Space e root t free'
            → ((vb : ℕ)
                → va + page_size ≤ vb
                → vb < va + page_size + n * 4096
                → is_valid (leaf t.memory root vb) ≡ false)
            → (b : Bool × Kmem) × (map_loop root n (va + page_size) (pa + page_size) perm t ≡ ok b)
              × MappedPages e root t (va + page_size) n (pa + page_size) perm b)
        → (b : Bool × Kmem) × (map_loop root (suc n) va pa perm s ≡ ok b)
          × MappedPages e root s va (suc n) pa perm b
    after_page (false, t) q x ih = (
      (false, t),
      rw (map_loop, q) refl,
      record {
        free = x.free;
        space = x.space;
        done = λ h. absurd (cc h);
        short = λ h. ((x.short refl).0, λ vb lb o. (x.short refl).1 vb lb);
      },
    )
    after_page (true, t) q x ih =
        let (b, q', rest) = ih t x.free x.space (λ vb lo hi.
          let other : (vb / 4096 == va / 4096) ≡ false = ground (arith, lo, av) in
          ap (λ y. is_valid y) (x.done refl vb (omega (arith, hi, lv)))
          ∙ rw other (empty vb (omega (arith, lo)) (omega (arith, hi)))) in
        (b, rw (map_loop, q) q', one_more e root s t b.1 n va pa perm b.0 av aligned x rest)

MappedPages-Mapped :
    (e root : ℕ) (s : Kmem) (va size pa perm : ℕ) (r : Bool × Kmem)
    → va % 4096 ≡ 0
    → size % 4096 ≡ 0
    → pa % 4096 ≡ 0
    → va + size ≤ max_va
    → perm < 2 ^ 10
    → MappedPages e root s va (size / page_size) pa perm r
    → Mapped e root s va size pa perm r
MappedPages-Mapped e root s va size pa perm r av whole aligned lv small x =
    let n : size / page_size * 4096 ≡ size = omega (arith, whole) in
    record {
      free = x.free;
      space = x.space;
      done = λ h vb lo hi.
          let within : in_pages va (size / page_size) vb ≡ true = ground (arith, lo, hi, n) in
          subst (Translates vb (pa + (vb - va)) perm)
            (sym (rw within at (x.done h vb (omega (arith, hi, lv)))))
            (make_pte-Translates vb (pa + (vb - va)) perm (omega (arith, av, aligned, lo)) small);
      kept = λ vb lb out.
          let without : in_pages va (size / page_size) vb ≡ false = elim out [
            | inl below ↦ ground (arith, below)
            | inr behind ↦ ground (arith, behind, n)
          ] in
          elim (Bool-cases r.0) [
            | inl worked ↦ rw without at (x.done worked vb lb)
            | inr failed ↦ (x.short failed).1 vb lb without
          ];
      short = λ h. (x.short h).0;
    }

-- `mappages` of at least one whole page, in a range that ends at MAXVA at the latest and none of whose
-- addresses is mapped yet, to whole pages below 2 ^ 64, with permissions below 2 ^ 10, returns. If it
-- succeeds, the entry of each address of the range is valid, has the permissions and takes the address to
-- the one as far behind `pa` as it is behind `va`; it fails only for want of a page for a table. Either way
-- every address outside the range keeps its entry, and the tables stay a tree of pages of their own,
-- apart from the free pages.
pub mappages-Mapped :
    (e root : ℕ) (s : Kmem) (free : List ℕ) (va size pa perm : ℕ)
    → Space e root s free
    → va % page_size ≡ 0
    → size % page_size ≡ 0
    → 0 < size
    → pa % page_size ≡ 0
    → va + size ≤ max_va
    → pa + size ≤ 2 ^ 64
    → perm < 2 ^ 10
    → ((vb : ℕ) → va ≤ vb → vb < va + size → is_valid (leaf s.memory root vb) ≡ false)
    → (r : Bool × Kmem) × (mappages root va size pa perm s ≡ ok r)
      × Mapped e root s va size pa perm r
unfolding mappages
mappages-Mapped e root s free va size pa perm w av whole positive ap' lv lp small empty =
    let p : (va % page_size != 0) ≡ false = ground (arith, av) in
    let q : (size % page_size != 0) ≡ false = ground (arith, whole) in
    let z : (size == 0) ≡ false = ground (arith, positive) in
    let n : size / page_size * 4096 ≡ size = omega (arith, whole) in
    let (r, e1, x) =
      map_loop-MappedPages e root s free (size / page_size) va pa perm w av ap'
        (omega (arith, lv, n)) (omega (arith, lp, n)) small
        (λ vb lo hi. empty vb lo (omega (arith, hi, n))) in
    (
      r,
      rw (mappages, p, q, z) e1,
      MappedPages-Mapped e root s va size pa perm r av whole ap' lv small x,
    )
