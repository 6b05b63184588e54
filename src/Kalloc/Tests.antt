-- ===== src/Kalloc/Tests.antt =====
-- The allocator on a memory of zeros, with the kernel's end three pages below PHYSTOP.
use csklub_os.Base.{ℕ, ◌-◌, ◌*◌, ◌≡◌, ◌↔◌, refl, arith, true, List, [], ◌∷◌, mem, ok}
use csklub_os.Memory.{read64}
use csklub_os.Kalloc.{Kmem, kinit, page_size, phys_top}
use csklub_os.Kalloc.Chain.{Chain, IsPage, Allocated, kalloc-Chain}
use csklub_os.Kalloc.Range.{kinit-Chain}

abbrev kernel_end : ℕ
kernel_end = phys_top - 3 * page_size - 10

abbrev page : ℕ
page = phys_top - page_size

abbrev nothing : Kmem
nothing = record { memory = λ a. 0; freelist = 0 }

page-IsPage : IsPage kernel_end page
page-IsPage = omega arith

kinit-Chain_example :
    (t : Kmem) × (ps : List ℕ) × (kinit kernel_end nothing ≡ ok t)
    × Chain kernel_end t.memory t.freelist ps
    × ((q : ℕ) → (mem q ps ≡ true) ↔ IsPage kernel_end q)
kinit-Chain_example = kinit-Chain kernel_end nothing (omega arith) (omega arith) refl

abbrev one_page : Kmem
one_page = record { memory = λ a. 0; freelist = page }

kalloc-Chain_example : Allocated kernel_end one_page (page ∷ [])
unfolding mem read64
kalloc-Chain_example = kalloc-Chain kernel_end one_page (page ∷ []) (refl, page-IsPage, refl, refl)
