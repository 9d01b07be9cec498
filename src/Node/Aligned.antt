-- ===== src/Node/Aligned.antt =====
-- Which alignments a memory handle may have.
use he_mai_a.Prelude.{
  ℕ, ◌≡◌, refl, String, false, Option, none, some, ok, Bool-cases, inl, inr, ◌↔◌, arith,
}
use he_mai_a.Prelude.Powers.{IsPowerOfTwo, bit_and-IsPowerOfTwo}
use he_mai_a.Node.{BingoMemAlloc, is_bad, new_mem_alloc}

abbrev pub IsAlignment : Option ℕ → Type 0
IsAlignment none = Unit
IsAlignment (some alignment) = IsPowerOfTwo alignment

is_bad-IsAlignment : (alignment : Option ℕ) → (is_bad alignment ≡ false) ↔ IsAlignment alignment
is_bad-IsAlignment none = (λ h. tt, λ h. refl)
is_bad-IsAlignment (some a) = (
  λ h. (bit_and-IsPowerOfTwo a).0 (ground arith),
  λ h. let k = (bit_and-IsPowerOfTwo a).1 h in ground (arith, k),
)

-- A memory handle is made exactly when its alignment, if it has one, is a power of two.
pub new_mem_alloc-IsAlignment :
    (name : String) (size : ℕ) (level : String) (chip cluster offset : ℕ)
    (condition : Option String) (alignment : Option ℕ)
    → ((handle : BingoMemAlloc) × (new_mem_alloc name size level chip cluster offset condition
            alignment
          ≡ ok handle))
      ↔ IsAlignment alignment
unfolding new_mem_alloc
new_mem_alloc-IsAlignment name size level chip cluster offset condition alignment =
    elim (Bool-cases (is_bad alignment)) [
      | inl bad ↦ (
        λ (handle, e). absurd (ground arith),
        λ h. absurd (ground (arith, (is_bad-IsAlignment alignment).1 h)),
      )
      | inr good ↦ (
        λ made. (is_bad-IsAlignment alignment).0 good,
        λ h. rw good (
          record {
            name = name;
            size = size;
            mem_level = level;
            chip_id = chip;
            cluster_id = cluster;
            offset = offset;
            condition = condition;
            alignment = alignment;
          },
          refl,
        ),
      )
    ]
