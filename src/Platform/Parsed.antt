-- ===== src/Platform/Parsed.antt =====
-- Which platform a header describes.
use he_mai_a.Prelude.{
  ℕ, zero, suc, ◌+◌, ◌≡◌, refl, true, Option, none, some, List, [], ◌∷◌, length, ◌==◌, ok, Error,
  require, >>=-eq-ok, ◌↔◌, arith, ==_iff, ap, subst,
}
use he_mai_a.Platform.{
  Define, PlatformCfg, or_missing, require_define, chiplet_ids_from, parse_platform_cfg,
}

-- The identifiers are those of the defines from `idx` on.
abbrev pub AreIds : (Define → Option ℕ) → ℕ → List ℕ → Type 0
AreIds defines idx [] = Unit
AreIds defines idx (x ∷ xs) =
    (defines (Define.chiplet_id idx) ≡ some x) × AreIds defines (idx + 1) xs

pub record IsDescribed (defines : Define → Option ℕ) (cfg : PlatformCfg) : Type 0 where
  pub chiplets : defines Define.n_chiplets ≡ some cfg.num_chiplets
  pub clusters : defines Define.n_clusters_per_chiplet ≡ some cfg.num_clusters_per_chiplet
  pub cores : defines Define.n_cores_per_cluster ≡ some cfg.num_cores_per_cluster
  pub ids : AreIds defines 0 cfg.chiplet_ids
  pub count : length cfg.chiplet_ids ≡ cfg.num_chiplets

or_missing-ok : (o : Option ℕ) (n : ℕ) → or_missing o ≡ ok n → o ≡ some n
or_missing-ok none n h = absurd (ground arith)
or_missing-ok (some m) n h = let same : m ≡ n = ground arith in ap some same

ids-ok :
    (defines : Define → Option ℕ) (count idx : ℕ) (ids : List ℕ)
    → chiplet_ids_from defines count idx ≡ ok ids
    → AreIds defines idx ids × (length ids ≡ count)
unfolding chiplet_ids_from require_define
ids-ok defines zero idx ids e =
    let same : [] ≡ ids = ground arith in
    subst (λ l. AreIds defines idx l × (length l ≡ 0)) same (tt, refl)
ids-ok defines (suc count) idx ids e =
    let (x, first, rest) = >>=-eq-ok (or_missing (defines (Define.chiplet_id idx))) _ {b = ids} e in
    let (xs, others, made) =
      >>=-eq-ok (chiplet_ids_from defines count (idx + 1)) _ {b = ids} rest in
    let same : x ∷ xs ≡ ids = ground arith in
    let (are, size) = ids-ok defines count (idx + 1) xs others in
    subst (λ l. AreIds defines idx l × (length l ≡ suc count)) same
      ((or_missing-ok (defines (Define.chiplet_id idx)) x first, are), ap suc size)

ids-found :
    (defines : Define → Option ℕ) (count idx : ℕ) (ids : List ℕ)
    → AreIds defines idx ids
    → length ids ≡ count
    → chiplet_ids_from defines count idx ≡ ok ids
unfolding chiplet_ids_from require_define
ids-found defines zero idx [] are size = refl
ids-found defines zero idx (x ∷ xs) are size = absurd (omega arith)
ids-found defines (suc count) idx [] are size = absurd (omega arith)
ids-found defines (suc count) idx (x ∷ xs) are size =
    rw (are.0, ids-found defines count (idx + 1) xs are.1 (omega arith)) refl

-- A platform is read from a header exactly when the header describes it: all four kinds of defines are
-- there, and there is one identifier for each chiplet.
pub parse_platform_cfg-IsDescribed :
    (defines : Define → Option ℕ) (cfg : PlatformCfg)
    → (parse_platform_cfg defines ≡ ok cfg) ↔ IsDescribed defines cfg
unfolding parse_platform_cfg require_define
parse_platform_cfg-IsDescribed defines cfg = (
  λ e.
      let (n, first, rest) = >>=-eq-ok (or_missing (defines Define.n_chiplets)) _ {b = cfg} e in
      let (ids, found, rest') = >>=-eq-ok (chiplet_ids_from defines n 0) _ {b = cfg} rest in
      let (u, counted, rest'') =
        >>=-eq-ok (require (length ids == n) Error.chiplet_id_count) _ {b = cfg} rest' in
      let (clusters, second, last) =
        >>=-eq-ok (or_missing (defines Define.n_clusters_per_chiplet)) _ {b = cfg} rest'' in
      let (cores, third, made) =
        >>=-eq-ok (or_missing (defines Define.n_cores_per_cluster)) _ {b = cfg} last in
      let whole : PlatformCfg = record {
        num_chiplets = n;
        num_clusters_per_chiplet = clusters;
        num_cores_per_cluster = cores;
        chiplet_ids = ids;
      } in
      let same : whole ≡ cfg = ground arith in
      let (are, size) = ids-ok defines n 0 ids found in
      subst (IsDescribed defines) same (record {
        chiplets = or_missing-ok (defines Define.n_chiplets) n first;
        clusters = or_missing-ok (defines Define.n_clusters_per_chiplet) clusters second;
        cores = or_missing-ok (defines Define.n_cores_per_cluster) cores third;
        ids = are;
        count = size;
      }),
  λ h.
      let counted : (length cfg.chiplet_ids == cfg.num_chiplets) ≡ true =
        (==_iff (length cfg.chiplet_ids) cfg.num_chiplets).1 h.count in
      rw
        (
          h.chiplets,
          ids-found defines cfg.num_chiplets 0 cfg.chiplet_ids h.ids h.count,
          counted,
          h.clusters,
          h.cores,
        )
        refl,
)
