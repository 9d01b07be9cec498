-- ===== src/Platform/Addresses.antt =====
-- The parts of a global address can be read back from it.
use he_mai_a.Prelude.{ℕ, ◌+◌, ◌*◌, ◌%◌, ◌^◌, ◌<◌, ◌≡◌, refl, arith, ap, ◌∙◌}
use he_mai_a.Prelude.Bits.{bit_or, bit_and, ◌<<◌, ◌>>>◌, bit_and-mask, bit_or-shift, bit_or_comm}
use he_mai_a.Platform.{
  chip_loc_to_chip_id, get_chip_baseaddress, chiplet_addr_transform_full,
  chiplet_addr_transform_loc,
}

chip_id-sum : (x y : ℕ) → chip_loc_to_chip_id x y ≡ y % 16 + x * 16
unfolding chip_loc_to_chip_id
chip_id-sum x y =
    bit_or_comm (x << 4) (bit_and y 15)
    ∙ (ap (λ (t : ℕ). bit_or t (x << 4)) (bit_and-mask 4 y)
        ∙ bit_or-shift 4 (y % 16) x (omega arith))

transform-sum :
    (chip_id addr : ℕ)
    → addr < 2 ^ 40
    → chiplet_addr_transform_full chip_id addr ≡ addr + chip_id * 2 ^ 40
unfolding chiplet_addr_transform_full get_chip_baseaddress
transform-sum chip_id addr h = bit_or_comm (chip_id << 40) addr ∙ bit_or-shift 40 addr chip_id h

-- A local address of 40 bits on the chip at (x, y) is the lower part of the global address, and the
-- column and the row, of which there are 16, are the parts above it.
pub chiplet_addr_transform_loc_lem :
    (x y addr : ℕ)
    → y < 16
    → addr < 2 ^ 40
    → let global = chiplet_addr_transform_loc x y addr in
      (global % 2 ^ 40 ≡ addr)
      × ((global >>> 40) % 2 ^ 4 ≡ y)
      × (global >>> 44 ≡ x)
      × (global ≡ chiplet_addr_transform_full (chip_loc_to_chip_id x y) addr)
unfolding chiplet_addr_transform_loc chiplet_addr_transform_full
chiplet_addr_transform_loc_lem x y addr row low =
    let whole : chiplet_addr_transform_loc x y addr ≡ addr + (y + x * 16) * 2 ^ 40 =
      transform-sum (chip_loc_to_chip_id x y) addr low ∙ omega (arith, chip_id-sum x y) in
    (omega (arith, whole), omega (arith, whole), omega (arith, whole), refl)
