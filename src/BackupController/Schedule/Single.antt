-- ===== src/BackupController/Schedule/Single.antt =====
-- How many backups of a cluster are under way at once (controllers/backupschedule_controller.go).
use etcdops.Base.{
  ℕ, suc, ◌≤◌, List, [], ◌∷◌, ◌++◌, ◌≡◌, refl, sym, ◌∙◌, ap, inl, inr, arith, if◌then◌else◌,
}
use etcdops.Kube.{Answer, ok, Outcome, Frame}
use etcdops.Types.Member.{cluster_label}
use etcdops.Types.Backup.{Backup, BackupSchedule, get_backup}
use etcdops.Env.{Env, Ret}
use etcdops.Env.Store.{BackupStore}
use etcdops.BackupController.Clock.{unix}
use etcdops.BackupController.Schedule.{schedule}
use etcdops.BackupController.Schedule.Latest.{unfinished, AllFinished}
use etcdops.BackupController.Schedule.Runs.{
  Runs, unlisted, under_way, creates, waits, Lists, schedule-Runs,
}

-- The backups of a list that are under way
unfoldable pub unfinished_count : List Backup → ℕ
unfinished_count [] = 0
unfinished_count (b ∷ backups) =
    let rest = unfinished_count backups in if unfinished b then suc rest else rest

unfinished_count-AllFinished :
    (backups : List Backup) → AllFinished backups → unfinished_count backups ≡ 0
unfolding unfinished_count
unfinished_count-AllFinished [] all = refl
unfinished_count-AllFinished (b ∷ backups) (over, all) =
    ground (arith, unfinished_count-AllFinished backups all)

unfinished_count-append :
    (backups : List Backup) (b : Backup)
    → unfinished_count (backups ++ (b ∷ [])) ≤ suc (unfinished_count backups)
unfolding unfinished_count
unfinished_count-append [] b = ground arith
unfinished_count-append (x ∷ backups) b = ground (arith, unfinished_count-append backups b)

module _ (V : Env) (S : BackupStore V) where
  -- The backups with the schedule's name that are under way
  abbrev pub open_backups : BackupSchedule → V.World → ℕ
  open_backups s w = unfinished_count (S.backups_of s.metadata.namespace s.metadata.name w)

  -- If the listing of a pass answers, then with the backups that are stored. The client of the
  -- controllers reads from a cache, which can lag behind.
  abbrev pub ListsFresh : BackupSchedule → V.World → Type 0
  ListsFresh s w =
      (backups : List Backup)
      → (V.backups.list s.metadata.namespace ((cluster_label, s.metadata.name) ∷ []) w).0
        ≡ ok backups
      → S.backups_of s.metadata.namespace s.metadata.name w ≡ backups

  -- Passes over the schedule whose listings are up to date, and between them changes that start no backup of its name, such as
  -- uploads and deletions
  pub data Continues (s : BackupSchedule) (start : V.World) : V.World → Type 0 where
    begins : Continues s start start
    passes :
        {w : V.World}
        → Continues s start w
        → ListsFresh s w
        → Continues s start (schedule V (record { world = w; self = s })).1.world
    others :
        {w w' : V.World}
        → Continues s start w
        → open_backups s w' ≤ open_backups s w
        → Continues s start w'

  listed-keeps :
      (f : Frame V.World BackupSchedule) {a : Answer V.Error (List Backup)} {w : V.World}
      → Lists V f a w
      → S.backups_of f.self.metadata.namespace f.self.metadata.name w
        ≡ S.backups_of f.self.metadata.namespace f.self.metadata.name f.world
  listed-keeps f listed =
      ap (λ u. S.backups_of f.self.metadata.namespace f.self.metadata.name u.1) (sym listed)
      ∙ S.list_keeps f.self.metadata.namespace f.self.metadata.name
          ((cluster_label, f.self.metadata.name) ∷ []) f.world

  Runs-open :
      (f : Frame V.World BackupSchedule) (u : Outcome (Ret V) × Frame V.World BackupSchedule)
      → Runs V f u
      → ListsFresh f.self f.world
      → open_backups f.self f.world ≤ 1
      → open_backups f.self u.1.world ≤ 1
  Runs-open f u (unlisted listed) fresh few = ground (arith, listed-keeps f listed)
  Runs-open f u (under_way listed _) fresh few = ground (arith, listed-keeps f listed)
  Runs-open f u
        (creates {backups = backups} {w = w} {w' = w'} {w'' = w''} {at = at} listed all _ clock _
          again created)
        fresh few =
      let namespace = f.self.metadata.namespace in
      let name = f.self.metadata.name in
      let a = get_backup f.self (unix at) in
      let known : S.backups_of namespace name f.world ≡ backups =
        fresh backups (ap (λ u. u.0) listed) in
      let idle : S.backups_of namespace name w'' ≡ backups =
        ap (λ u. S.backups_of namespace name u.1) (sym again)
        ∙ S.clock_keeps namespace name w'
        ∙ ap (λ u. S.backups_of namespace name u.1) (sym clock)
        ∙ S.clock_keeps namespace name w
        ∙ listed-keeps f listed
        ∙ known in
      let none_open = unfinished_count-AllFinished backups all in
      elim (S.create_adds namespace name a w'') [
        | inl same ↦
            let after = ap unfinished_count (same ∙ idle) in
            ground (arith, created, after, none_open)
        | inr (b, more) ↦
            let after = ap unfinished_count (more ∙ ap (λ l. l ++ (b ∷ [])) idle) in
            ground (arith, created, after, none_open, unfinished_count-append backups b)
      ]
  Runs-open f u (waits {w = w} {w' = w'} {w'' = w''} listed _ _ clock _ again) fresh few =
      let namespace = f.self.metadata.namespace in
      let name = f.self.metadata.name in
      let same : S.backups_of namespace name w'' ≡ S.backups_of namespace name f.world =
        ap (λ u. S.backups_of namespace name u.1) (sym again)
        ∙ S.clock_keeps namespace name w'
        ∙ ap (λ u. S.backups_of namespace name u.1) (sym clock)
        ∙ S.clock_keeps namespace name w
        ∙ listed-keeps f listed in
      ground (arith, ap unfinished_count same)

  -- If the API server writes as documented (`BackupStore`), if the listing of every pass is up to
  -- date, which the controllers' client, with its cache, does not promise, and if at most one backup
  -- with the name of a schedule is under way at the start, then passes over the schedule never lead
  -- to two of them, with any changes in between that leave no more under way than there were.
  pub Continues-single :
      (s : BackupSchedule) {start w : V.World}
      → open_backups s start ≤ 1
      → Continues s start w
      → open_backups s w ≤ 1
  Continues-single s few begins = few
  Continues-single s few (passes {w = w} before fresh) =
      let f : Frame V.World BackupSchedule = record { world = w; self = s } in
      Runs-open f (schedule V f) (schedule-Runs V f) fresh (Continues-single s few before)
  Continues-single s few (others before le) = omega (arith, Continues-single s few before)
