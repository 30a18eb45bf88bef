-- ===== src/Controller/Store.antt =====
-- The budgets and Pods of the API server that the reconciler reads and writes, in the namespace of its
-- WorkloadClass and keyed by name, with the lease tracker. Any call may fail.
use workload_class.Prelude.{
  Bool, true, false, not, ◌&&◌, Option, none, some, List, map, ◌==◌, str_eq, Str, lit, lookup,
  insert, delete, if◌then◌else◌, Result, ok, err,
}
use workload_class.Kube.Objects.{Pod, Pdb, OwnerReference}
use workload_class.Api.{WorkloadClass}
use workload_class.LeaseTracker.{Tracker}
use workload_class.Pdb.{is_workload_class_managed_pdb}

pub record Store : Type 0 where
  pub pods : List (Str × Pod)
  pub pdbs : List (Str × Pdb)
  pub tracker : Option Tracker

-- The calls that fail, other than by NotFound, with their texts; during one reconcile a call on an object fails
-- always or never. `write_pdb` is Create or Update.
pub record Faults : Type 0 where
  pub list_pdbs : Option Str
  pub list_pods : Option Str
  pub get_pdb : Str → Option Str
  pub get_pod : Str → Option Str
  pub write_pdb : Str → Option Str
  pub delete_pdb : Str → Option Str
  pub patch_pod : Str → Option Str

pub data PdbError : Type 0 where
  call_failed : Str → PdbError
  -- The budget exists and is not managed by a WorkloadClass.
  not_managed : Str → PdbError

abbrev pub objects {ℓ} : {A : Type ℓ} → List (Str × A) → List A
objects m = map (λ p. p.1) m

-- Get; NotFound is none.
abbrev pub found_unless {ℓ} : {A : Type ℓ} → Option Str → Option A → Result PdbError (Option A)
found_unless none o = ok o
found_unless (some e) o = err (call_failed e)

unfoldable pub fetch_pdb : Faults → Store → Str → Result PdbError (Option Pdb)
fetch_pdb faults s name = found_unless (faults.get_pdb name) (lookup name s.pdbs)

-- getPod
unfoldable pub fetch_pod : Faults → Store → Str → Result PdbError (Option Pod)
fetch_pod faults s name = found_unless (faults.get_pod name) (lookup name s.pods)

abbrev pub put_pdb : Store → Str → Pdb → Store
put_pdb s name pdb = record s { pdbs = insert name pdb s.pdbs }

abbrev pub written : Option Str → Store → Str → Pdb → Result PdbError (Unit {0}) × Store
written (some e) s name pdb = (err (call_failed e), s)
written none s name pdb = (ok tt, put_pdb s name pdb)

abbrev pub mutated : Faults → Store → Str → Result PdbError Pdb → Result PdbError (Unit {0}) × Store
mutated faults s name (err e) = (err e, s)
mutated faults s name (ok pdb) = written (faults.write_pdb name) s name pdb

abbrev pub created_or_updated :
    Faults
    → Store
    → Pdb
    → (Bool → Pdb → Result PdbError Pdb)
    → Result PdbError (Option Pdb)
    → Result PdbError (Unit {0}) × Store
created_or_updated faults s base change (err e) = (err e, s)
created_or_updated faults s base change (ok none) = mutated faults s base.name (change false base)
created_or_updated faults s base change (ok (some pdb)) =
    mutated faults s base.name (change true pdb)

-- controllerutil.CreateOrUpdate; `change` learns whether the budget exists. Its Update of an unchanged budget is
-- left out by the library, and changes nothing here.
unfoldable pub create_or_update :
    Faults → Store → Pdb → (Bool → Pdb → Result PdbError Pdb) → Result PdbError (Unit {0}) × Store
create_or_update faults s base change =
    created_or_updated faults s base change (fetch_pdb faults s base.name)

abbrev pub has_uid : Option OwnerReference → Str → Bool
has_uid none uid = false
has_uid (some owner) uid = owner.uid == uid

-- metav1.IsControlledBy
unfoldable pub is_controlled_by : Pdb → WorkloadClass → Bool
is_controlled_by pdb wc = has_uid pdb.controller wc.uid

abbrev pub reference_to : WorkloadClass → OwnerReference
reference_to wc = record { kind = lit "WorkloadClass"; name = wc.name; uid = wc.uid }

-- claimPDB. Another controller is dropped first, so that SetControllerReference does not fail.
unfoldable pub claim_pdb : WorkloadClass → Bool → Pdb → Result PdbError Pdb
claim_pdb wc exists pdb =
    if exists && not (is_workload_class_managed_pdb (some pdb))
    then err (not_managed pdb.name)
    else ok (record pdb { controller = some (reference_to wc) })

abbrev pub deleted : Option Str → Store → Str → Result PdbError (Unit {0}) × Store
deleted (some e) s name = (err (call_failed e), s)
deleted none s name = (ok tt, record s { pdbs = delete name s.pdbs })

abbrev pub delete_found :
    Faults
    → Store
    → WorkloadClass
    → Str
    → Result PdbError (Option Pdb)
    → Result PdbError (Unit {0}) × Store
delete_found faults s wc name (err e) = (err e, s)
delete_found faults s wc name (ok none) = (ok tt, s)
delete_found faults s wc name (ok (some current)) =
    if not (is_controlled_by current wc)
    then (ok tt, s)
    else deleted (faults.delete_pdb name) s name

-- deletePDB. The preconditions hold, since nothing else writes between the two calls.
unfoldable pub delete_pdb :
    Faults → Store → WorkloadClass → Str → Result PdbError (Unit {0}) × Store
delete_pdb faults s wc name = delete_found faults s wc name (fetch_pdb faults s name)
