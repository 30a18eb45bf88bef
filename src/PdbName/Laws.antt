-- ===== src/PdbName/Laws.antt =====
-- The names of PodDisruptionBudgets fit the limit of Kubernetes, and short ones give back the Pod.
use workload_class.Prelude.{
  ◌+◌, ◌-◌, ◌≤◌, ◌≡◌, refl, arith, [], ◌∷◌, ◌++◌, length, length-append, length-take-le, take, Str,
  lit,
}
use workload_class.PdbName.{
  pdb_name_prefix, max_pdb_name_length, trim_right, after_prefix, trim_prefix, suffix_of, pdb_name,
  pod_name_from_pdb_name,
}

length-trim_right-le : (s : Str) → length (trim_right s) ≤ length s
unfolding trim_right
length-trim_right-le [] = omega arith
length-trim_right-le (c ∷ s) = ground (arith, length-trim_right-le s)

length-suffix : (h : Str) → length (suffix_of h) ≡ length h + 1
unfolding lit
length-suffix h = omega arith

-- PDBName never returns more than the 253 bytes that Kubernetes allows, if the hash has eight
-- digits.
pub pdb_name_fits :
    (hash : Str → Str) (pod_name : Str)
    → length (hash pod_name) ≡ 8
    → length (pdb_name hash pod_name) ≤ max_pdb_name_length
unfolding pdb_name
pdb_name_fits hash pod_name h =
    let suffix : Str = suffix_of (hash pod_name) in
    let cut : Str = take (253 - length suffix) (pdb_name_prefix ++ pod_name) in
    ground (
      arith,
      length-suffix (hash pod_name),
      length-append (trim_right cut) suffix,
      length-trim_right-le cut,
      length-take-le (253 - length suffix) (pdb_name_prefix ++ pod_name),
    )

after_prefix-append : (whole p s : Str) → after_prefix whole p (p ++ s) ≡ s
unfolding after_prefix
after_prefix-append whole [] s = refl
after_prefix-append whole (c ∷ p) s = ground (arith, after_prefix-append whole p s)

length-prefix : length pdb_name_prefix ≡ 9
unfolding lit
length-prefix = refl

-- For a Pod name of at most 244 bytes, PodNameFromPDBName gives back the name that PDBName was
-- called with.
pub pod_name-pdb_name :
    (hash : Str → Str) (pod_name : Str)
    → length pod_name ≤ 244
    → pod_name_from_pdb_name (pdb_name hash pod_name) ≡ pod_name
unfolding pdb_name pod_name_from_pdb_name trim_prefix
pod_name-pdb_name hash pod_name h = ground (
  arith,
  length-append pdb_name_prefix pod_name,
  length-prefix,
  after_prefix-append (pdb_name_prefix ++ pod_name) pdb_name_prefix pod_name,
)
