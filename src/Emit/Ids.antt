-- ===== src/Emit/Ids.antt =====
-- The numbers that `bingo_emit_task_id_mapping_lists` gives to device and host tasks.
use he_mai_a.Prelude.{
  ℕ, ◌+◌, ◌≡◌, refl, ap, String, Bool, true, false, ◌&&◌, Option, none, some, List, [], ◌∷◌, ◌==◌,
  length, suc, zero, arith, keep_if, Bool-cases, inl, inr,
}
use he_mai_a.Node.{BingoNode}
use he_mai_a.Emit.{has_prefix, task_ids}

-- The numbers in the table, in order.
abbrev pub numbers : List (Option ℕ) → List ℕ
numbers [] = []
numbers (none ∷ ids) = numbers ids
numbers (some n ∷ ids) = n ∷ numbers ids

abbrev pub up_from : ℕ → ℕ → List ℕ
up_from first zero = []
up_from first (suc count) = first ∷ up_from (first + 1) count

abbrev pub is_task_of : String → ℕ → BingoNode → Bool
is_task_of prefix chiplet_id node = node.assigned_chiplet_id == chiplet_id && has_prefix prefix node

-- Which entries of the table are numbers.
abbrev pub is_number : Option ℕ → Bool
is_number none = false
is_number (some n) = true

abbrev pub marks {ℓ} : {A : Type ℓ} → (A → Bool) → List A → List Bool
marks p [] = []
marks p (x ∷ xs) = p x ∷ marks p xs

module _ (prefix : String) (chiplet_id : ℕ) where
  table_from :
      (counter : ℕ) (nodes : List BingoNode)
      → let (ids, end) = task_ids prefix chiplet_id counter nodes in
        let tasks = length (keep_if (is_task_of prefix chiplet_id) nodes) in
        (marks is_number ids ≡ marks (is_task_of prefix chiplet_id) nodes)
        × (numbers ids ≡ up_from counter tasks)
        × (end ≡ counter + tasks)
  unfolding task_ids
  table_from counter [] = (refl, refl, omega arith)
  table_from counter (node ∷ nodes) = elim (Bool-cases (is_task_of prefix chiplet_id node)) [
    | inl e ↦
        let (a, b, d) = table_from (counter + 1) nodes in
        rw e (ap (λ l. true ∷ l) a, ap (λ l. counter ∷ l) b, omega (arith, d))
    | inr e ↦ let (a, b, d) = table_from counter nodes in rw e (ap (λ l. false ∷ l) a, b, d)
  ]

  -- In the table of a chiplet, the entry of a node is a number exactly when the node is a task of the
  -- chiplet with the kernel prefix; these numbers are 0, 1, 2 and so on in the order of the nodes, and
  -- the emitted count of tasks is how many there are.
  pub task_ids_lem :
      (nodes : List BingoNode)
      → let (ids, count) = task_ids prefix chiplet_id 0 nodes in
        (marks is_number ids ≡ marks (is_task_of prefix chiplet_id) nodes)
        × (numbers ids ≡ up_from 0 count)
        × (count ≡ length (keep_if (is_task_of prefix chiplet_id) nodes))
  task_ids_lem nodes =
      let (a, b, d) = table_from 0 nodes in
      let same : (task_ids prefix chiplet_id 0 nodes).1
          ≡ length (keep_if (is_task_of prefix chiplet_id) nodes) =
        omega (arith, d) in
      (a, rw same b, same)
