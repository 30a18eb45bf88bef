-- ===== src/PdbName.antt =====
-- internal/utils/pdb.go: the name of the PodDisruptionBudget of a Pod. The eight hexadecimal digits
-- that SHA-256 gives are a parameter.
pub mod Laws
use workload_class.Prelude.{
  ℕ, ◌+◌, ◌-◌, Bool, true, false, ◌&&◌, ◌||◌, List, [], ◌∷◌, ◌++◌, length, take, leb, nat_beq, Str,
  lit, if◌then◌else◌,
}

abbrev pub pdb_name_prefix : Str
pdb_name_prefix = lit "workload-"

abbrev pub max_pdb_name_length : ℕ
max_pdb_name_length = 253

abbrev pub is_empty : Str → Bool
is_empty [] = true
is_empty (c ∷ s) = false

-- The cutset "-.".
abbrev pub is_cut : ℕ → Bool
is_cut c = nat_beq c b'-' || nat_beq c b'.'

abbrev pub cons_unless_cut : ℕ → Str → Str
cons_unless_cut c s = if is_empty s && is_cut c then [] else c ∷ s

-- strings.TrimRight(s, "-.")
unfoldable pub trim_right : Str → Str
trim_right [] = []
trim_right (c ∷ s) = cons_unless_cut c (trim_right s)

-- strings.TrimPrefix: what follows the prefix, or the whole text if it does not begin so.
unfoldable pub after_prefix : Str → Str → Str → Str
after_prefix whole [] s = s
after_prefix whole (p ∷ ps) [] = whole
after_prefix whole (p ∷ ps) (c ∷ s) = if nat_beq p c then after_prefix whole ps s else whole

unfoldable pub trim_prefix : Str → Str → Str
unfolding after_prefix
trim_prefix s prefix = after_prefix s prefix s

abbrev pub suffix_of : Str → Str
suffix_of hash = lit "-" ++ hash

abbrev pub truncated : Str → Str → Str
truncated name suffix = trim_right (take (max_pdb_name_length - length suffix) name) ++ suffix

-- PDBName
unfoldable pub pdb_name : (Str → Str) → Str → Str
pdb_name hash pod_name =
    let name = pdb_name_prefix ++ pod_name in
    if leb (length name) max_pdb_name_length
    then name
    else truncated name (suffix_of (hash pod_name))

-- PodNameFromPDBName
unfoldable pub pod_name_from_pdb_name : Str → Str
pod_name_from_pdb_name name = trim_prefix name pdb_name_prefix
