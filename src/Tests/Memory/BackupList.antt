-- ===== src/Tests/Memory/BackupList.antt =====
-- The backups in memory are listed as the API server documents it.
use etcdops.Base.{
  String, ◌&&◌, List, [], ◌∷◌, ◌++◌, ◌≡◌, refl, ◌∙◌, ap, ◌⊎◌, inl, inr, arith, Bool-cases, str_eq,
}
use etcdops.Kube.{Labels}
use etcdops.Types.Member.{cluster_label}
use etcdops.Types.Backup.{Backup, BackupSchedule}
use etcdops.BackupController.Schedule.Single.{ListsFresh}
use etcdops.Env.Store.{BackupStore}
use etcdops.Tests.Memory.{Store, memory, select, has_labels, contains}

abbrev listed : String → Labels → List Backup → List Backup
listed namespace labels = select (λ b. b.metadata) namespace labels

listed-append :
    (namespace : String) (labels : Labels) (l : List Backup) (a : Backup)
    → (listed namespace labels (l ++ (a ∷ [])) ≡ listed namespace labels l)
      ⊎ (listed namespace labels (l ++ (a ∷ [])) ≡ listed namespace labels l ++ (a ∷ []))
listed-append namespace labels [] a =
    elim (Bool-cases
      (str_eq a.metadata.namespace namespace && has_labels labels a.metadata.labels)) [
        | inl h ↦ inr (ground arith)
        | inr h ↦ inl (ground arith)
      ]
listed-append namespace labels (x ∷ l) a =
    elim (Bool-cases
      (str_eq x.metadata.namespace namespace && has_labels labels x.metadata.labels)) [
        | inl h ↦ elim (listed-append namespace labels l a) [
          | inl e ↦ inl (ground (arith, e))
          | inr e ↦ inr (ground (arith, e))
        ]
        | inr h ↦ elim (listed-append namespace labels l a) [
          | inl e ↦ inl (ground (arith, e))
          | inr e ↦ inr (ground (arith, e))
        ]
      ]

create_adds_memory :
    (namespace name : String) (a : Backup) (w : Store)
    → (listed namespace ((cluster_label, name) ∷ []) (memory.backups.create a w).1.backups
        ≡ listed namespace ((cluster_label, name) ∷ []) w.backups)
      ⊎ ((b : Backup) × (listed namespace
              ((cluster_label, name) ∷ [])
              (memory.backups.create a w).1.backups
            ≡ listed namespace ((cluster_label, name) ∷ []) w.backups ++ (b ∷ [])))
create_adds_memory namespace name a w =
    let labels : Labels = (cluster_label, name) ∷ [] in
    elim (Bool-cases (contains w.refused a.metadata.name)) [
      | inl h ↦ inl (ap (listed namespace labels) (ground arith))
      | inr h ↦
          let after : (memory.backups.create a w).1.backups ≡ w.backups ++ (a ∷ []) =
            ground arith in
          elim (listed-append namespace labels w.backups a) [
            | inl e ↦ inl (ap (listed namespace labels) after ∙ e)
            | inr e ↦ inr (a, ap (listed namespace labels) after ∙ e)
          ]
    ]

pub memory-BackupStore : BackupStore memory
memory-BackupStore = record {
  backups_of = λ namespace name w. listed namespace ((cluster_label, name) ∷ []) w.backups;
  list_keeps = λ namespace name labels w. refl;
  clock_keeps = λ namespace name w. refl;
  create_adds = create_adds_memory;
}

pub memory-backups :
    (namespace name : String) (w : Store)
    → memory-BackupStore.backups_of namespace name w
      ≡ listed namespace ((cluster_label, name) ∷ []) w.backups
unfolding memory-BackupStore
memory-backups namespace name w = refl

-- A listing in memory is always up to date.
pub memory-ListsFresh : (s : BackupSchedule) (w : Store) → ListsFresh memory memory-BackupStore s w
unfolding memory-BackupStore
memory-ListsFresh s w backups h = ground arith
