-- ===== src/Controller/Kept.antt =====
-- A request for a lease is not lost when reconcilePDBs gives up.
use workload_class.Prelude.{
  ℕ, ◌≡◌, refl, ◌∙◌, arith, Bool, true, false, Option, none, some, List, [], ◌∷◌, ◌==◌, ==_refl,
  ==_comm, Str, str_eq, All, ok, err,
}
use workload_class.Kube.Labels.{SelectorLib}
use workload_class.Kube.Objects.{key_eq}
use workload_class.Kube.Client.{Client}
use workload_class.Api.{WorkloadClass}
use workload_class.BestMatch.{is_none}
use workload_class.Resolve.{ResolveError, namespace_enforced_workload_class}
use workload_class.LeaseTracker.{PendingLease, Tracker, key_of, enqueue_lease}
use workload_class.LeaseTracker.Requests.{request_of, request_of-enqueue}
use workload_class.Pdb.{TimeFormat}
use workload_class.Controller.Validation.{protects_pods}
use workload_class.Controller.Store.{Store, Faults}
use workload_class.Controller.Namespace.{
  pod_for, enqueue_all, reenqueue_leases, NamespaceError, list_failed, unresolved,
}
use workload_class.Controller.Reconcile.{reconcile_pdbs, give_up}

-- No two requests are for Pods of the same name, as in what Drain returns.
abbrev pub AllDifferent : List PendingLease → Type 0
AllDifferent [] = Unit
AllDifferent (l ∷ ls) = All (λ m. (m.pod_name == l.pod_name) ≡ false) ls × AllDifferent ls

abbrev pub NoneHeld : Tracker → WorkloadClass → List PendingLease → Type 0
NoneHeld t wc ls = All (λ l. request_of t (key_of wc) l.pod_name ≡ none) ls

abbrev pub AllHeld : Tracker → WorkloadClass → List PendingLease → Type 0
AllHeld t wc ls = All (λ l. request_of t (key_of wc) l.pod_name ≡ some l) ls

module _ (wc : WorkloadClass) where
  abbrev next : Tracker → PendingLease → Tracker
  next t l = (enqueue_lease t wc (pod_for wc l) l.subject).0

  next-other :
      (t : Tracker) (l : PendingLease) (name : Str)
      → (l.pod_name == name) ≡ false
      → request_of (next t l) (key_of wc) name ≡ request_of t (key_of wc) name
  next-other t l name d = ground (
    arith,
    request_of-enqueue t wc (pod_for wc l) l.subject (key_of wc) name,
    ==_refl (key_of wc),
  )

  next_self :
      (t : Tracker) (l : PendingLease)
      → request_of t (key_of wc) l.pod_name ≡ none
      → request_of (next t l) (key_of wc) l.pod_name ≡ some l
  next_self t l h =
      request_of-enqueue t wc (pod_for wc l) l.subject (key_of wc) l.pod_name
      ∙ rw (==_refl (key_of wc), ==_refl l.pod_name, h) refl

  enqueue_all-other :
      (t : Tracker) (ls : List PendingLease) (name : Str)
      → All (λ m. (m.pod_name == name) ≡ false) ls
      → request_of (enqueue_all t wc ls) (key_of wc) name ≡ request_of t (key_of wc) name
  unfolding enqueue_all
  enqueue_all-other t [] name h = refl
  enqueue_all-other t (l ∷ ls) name h =
      enqueue_all-other (next t l) ls name h.1 ∙ next-other t l name h.0

  still_none :
      (t : Tracker) (l : PendingLease) (ls : List PendingLease)
      → All (λ m. (m.pod_name == l.pod_name) ≡ false) ls
      → NoneHeld t wc ls
      → NoneHeld (next t l) wc ls
  still_none t l [] d h = tt
  still_none t l (m ∷ ls) d h = (
    next-other t l m.pod_name (==_comm l.pod_name m.pod_name ∙ d.0) ∙ h.0,
    still_none t l ls d.1 h.1,
  )

  enqueue_all-AllHeld :
      (t : Tracker) (ls : List PendingLease)
      → AllDifferent ls
      → NoneHeld t wc ls
      → AllHeld (enqueue_all t wc ls) wc ls
  unfolding enqueue_all
  enqueue_all-AllHeld t [] d h = tt
  enqueue_all-AllHeld t (l ∷ ls) d h = (
    enqueue_all-other (next t l) ls l.pod_name d.0 ∙ next_self t l h.0,
    enqueue_all-AllHeld (next t l) ls d.1 (still_none t l ls d.0 h.1),
  )

module _ (lib : SelectorLib) (hash : Str → Str) (time : TimeFormat) (faults : Faults)
    (wc : WorkloadClass) (now : ℕ) (client : Client) (reason : Str) (has_guardrails : Bool) where
  -- The budgets cannot be listed; or the WorkloadClass protects its Pods, and the enforced class or the
  -- WorkloadClasses of its namespace cannot be read.
  pub data CannotRead : NamespaceError → Type 0 where
    no_pdbs : {e : Str} → faults.list_pdbs ≡ some e → CannotRead (list_failed e)
    no_enforced :
        {e : ResolveError}
        → faults.list_pdbs ≡ none
        → protects_pods reason has_guardrails ≡ true
        → namespace_enforced_workload_class client wc.namespace ≡ err e
        → CannotRead (unresolved e)
    no_classes :
        {e : Str} {enforced : Option WorkloadClass}
        → faults.list_pdbs ≡ none
        → protects_pods reason has_guardrails ≡ true
        → namespace_enforced_workload_class client wc.namespace ≡ ok enforced
        → client.list_workload_classes wc.namespace ≡ err e
        → CannotRead (list_failed e)

  reads-give_up :
      (pending : List PendingLease) (s : Store) (e : NamespaceError)
      → is_none wc.deletion_timestamp ≡ true
      → CannotRead e
      → reconcile_pdbs lib hash time faults wc now client reason has_guardrails pending s
        ≡ give_up lib hash time faults wc now s pending e
  unfolding reconcile_pdbs
  reads-give_up pending s _ d (no_pdbs f) = rw (d, f) refl
  reads-give_up pending s _ d (no_enforced f p n) = rw (d, f, p, n) refl
  reads-give_up pending s _ d (no_classes f p n c) = rw (d, f, p, n, c) refl

  -- If the WorkloadClass is not being deleted, and the budgets cannot be listed or, where it protects its Pods,
  -- the enforced class or the WorkloadClasses of its namespace cannot be read, then reconcilePDBs returns
  -- that error and changes no budget; and if the drained requests are for Pods of different names, for
  -- which the tracker holds no request, the tracker then holds each of the drained ones again.
  pub reconcile_pdbs-AllHeld :
      (pending : List PendingLease) (s : Store) (t : Tracker) (e : NamespaceError)
      → is_none wc.deletion_timestamp ≡ true
      → CannotRead e
      → s.tracker ≡ some t
      → AllDifferent pending
      → NoneHeld t wc pending
      → let o = reconcile_pdbs lib hash time faults wc now client reason has_guardrails pending s in
        (o.errors ≡ e ∷ [])
        × (o.store.pdbs ≡ s.pdbs)
        × ((u : Tracker) × (o.store.tracker ≡ some u) × AllHeld u wc pending)
  unfolding reenqueue_leases
  reconcile_pdbs-AllHeld pending s t e d c h different none_held =
      rw (reads-give_up pending s e d c, h)
        (
          refl,
          refl,
          (enqueue_all t wc pending, refl, enqueue_all-AllHeld wc t pending different none_held),
        )
