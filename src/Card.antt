-- ===== src/Card.antt =====
-- hardware_software_interface/Practicals/encoding/card_encoding.c: a playing card in a byte, its suit in
-- bits 4 and 5 and its value in bits 0 to 3. A `char` is given by its bit pattern.
mod Tests
use csklub_os.Base.{
  ℕ, ◌*◌, ◌/◌, ◌%◌, ◌≡◌, ◌≢◌, ◌↔◌, ◌⊎◌, arith, Bool, true, ltb, ◌==◌, ◌!=◌, if◌then◌else◌,
}

-- `card & SUIT_MASK`.
unfoldable pub suit_bits : ℕ → ℕ
suit_bits card = card / 16 % 4 * 16

-- `card & VALUE_MASK`.
unfoldable pub value_bits : ℕ → ℕ
value_bits card = card % 16

-- `!` is applied to the first card's bits alone; `x ^ y`, read as a `bool`, is `x != y`.
unfoldable pub same_suit : ℕ → ℕ → Bool
unfolding suit_bits
same_suit card1 card2 = (if suit_bits card1 == 0 then 1 else 0) != suit_bits card2

unfoldable pub greater_value : ℕ → ℕ → Bool
unfolding value_bits
greater_value card1 card2 = ltb (value_bits card2) (value_bits card1)

-- `sameSuitP` answers true exactly if the first card is a club (its suit is 0) or the second is
-- none.
pub same_suit_iff :
    (card1 card2 : ℕ)
    → (same_suit card1 card2 ≡ true) ↔ ((suit_bits card1 ≡ 0) ⊎ (suit_bits card2 ≢ 0))
unfolding same_suit suit_bits
same_suit_iff card1 card2 = ground arith
