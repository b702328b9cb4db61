-- ===== src/Memory/Layout.antt =====
-- src/emulite/memory/memory_layout.py: the constants of the guest's address space that the
-- arenas need, and rounding to pages.
use emulite.Base.{ℕ, ◌+◌, ◌-◌, ◌%◌, ◌≤◌, ◌<◌, ◌≡◌, ap, ◌∙◌, arith}
use emulite.Base.Bits.{clear_bits, clear_bits-mask}

abbrev pub page_size : ℕ
page_size = 0x1000

abbrev pub heap_base : ℕ
heap_base = 0x08000000

abbrev pub mmap_base : ℕ
mmap_base = 0x20000000

abbrev pub lib_base : ℕ
lib_base = 0x40000000

abbrev pub return_sentinel : ℕ
return_sentinel = 0x50000000

abbrev pub poison_base : ℕ
poison_base = 0x5F000000

unfoldable pub page_align_up : ℕ → ℕ
page_align_up size = clear_bits (size + page_size - 1) (page_size - 1)

unfoldable pub page_align_down : ℕ → ℕ
page_align_down address = clear_bits address (page_size - 1)

pub page_align_up_lem : (n : ℕ) → page_align_up n ≡ n + 4095 - (n + 4095) % 4096
unfolding page_align_up
page_align_up_lem n =
    ap (λ (t : ℕ). clear_bits t 4095) (omega arith) ∙ clear_bits-mask 12 (n + 4095)

pub page_align_down_lem : (n : ℕ) → page_align_down n ≡ n - n % 4096
unfolding page_align_down
page_align_down_lem n = clear_bits-mask 12 n

-- `page_align_up` rounds up to whole pages, by less than a page.
pub page_align_up_bounds :
    (n : ℕ)
    → (n ≤ page_align_up n) × (page_align_up n < n + page_size) × (page_align_up n % page_size ≡ 0)
page_align_up_bounds n = omega (arith, page_align_up_lem n)

pub page_align_down_bounds :
    (n : ℕ)
    → (page_align_down n ≤ n)
      × (n < page_align_down n + page_size)
      × (page_align_down n % page_size ≡ 0)
page_align_down_bounds n = omega (arith, page_align_down_lem n)
