-- ===== src/BackupController/Schedule/Runs.antt =====
-- When `Schedule` creates a backup (controllers/backupschedule_controller.go).
use etcdops.Base.{
  List, false, ◌≡◌, refl, inl, inr, arith, Bool-cases, ◌∷◌, [], sym, subst, some, none,
}
use etcdops.Base.Int.{◌+ℤ◌, ◌≤ℤ◌, ◌<ℤ◌, ltb_ℤ}
use etcdops.Kube.{Answer, ok, err, Outcome, done, Frame, Time, zero_time}
use etcdops.Kube.Laws.{Answer-cases}
use etcdops.Types.Member.{cluster_label}
use etcdops.Types.Backup.{Backup, BackupSchedule, get_backup}
use etcdops.Env.{Env, Ret, failing}
use etcdops.Controller.{requeue}
use etcdops.BackupController.Clock.{sub_time, unix}
use etcdops.ClusterController.Update.{answer_error}
use etcdops.BackupController.Schedule.{
  Progress, scan_backups, create_backup, wait_for_run, plan_run, schedule,
}
use etcdops.BackupController.Schedule.Latest.{
  AllFinished, UnderWay, Latest, scan_backups-Latest, scan_backups-AllFinished,
  scan_backups-UnderWay,
}

module _ (V : Env) where
  abbrev pub behind : Frame V.World BackupSchedule → V.World → Frame V.World BackupSchedule
  behind f w = record f { world = w }

  -- The backups that carry the schedule's name, as the server lists them
  abbrev pub Lists : Frame V.World BackupSchedule → Answer V.Error (List Backup) → V.World → Type 0
  Lists f a w =
      V.backups.list f.self.metadata.namespace ((cluster_label, f.self.metadata.name) ∷ []) f.world
      ≡ (a, w)

  -- The ways through one pass over a schedule
  pub data Runs (f : Frame V.World BackupSchedule)
      : Outcome (Ret V) × Frame V.World BackupSchedule → Type 0 where
    unlisted :
        {e : V.Error} {w : V.World}
        → Lists f (err e) w
        → Runs f (done (failing V (some e)), behind f w)
    under_way :
        {backups : List Backup} {w : V.World}
        → Lists f (ok backups) w
        → UnderWay backups
        → Runs f (done (record { result = requeue; error = none }), behind f w)
    creates :
        {backups : List Backup} {w w' w'' v : V.World} {now at t : Time} {a : Answer V.Error Backup}
        → Lists f (ok backups) w
        → AllFinished backups
        → Latest zero_time t backups
        → V.now w ≡ (now, w')
        → t +ℤ f.self.spec.creation_period <ℤ now
        → V.now w' ≡ (at, w'')
        → V.backups.create (get_backup f.self (unix at)) w'' ≡ (a, v)
        → Runs f (done (record { result = requeue; error = answer_error V a }), behind f v)
    waits :
        {backups : List Backup} {w w' w'' : V.World} {now at t : Time}
        → Lists f (ok backups) w
        → AllFinished backups
        → Latest zero_time t backups
        → V.now w ≡ (now, w')
        → now ≤ℤ t +ℤ f.self.spec.creation_period
        → V.now w' ≡ (at, w'')
        → Runs f (
          done (record {
            result = record {
              requeue = false;
              requeue_after = sub_time (t +ℤ f.self.spec.creation_period) at;
            };
            error = none;
          }),
          behind f w'',
        )

  abbrev start : Progress
  start = record { in_progress = false; latest = zero_time }

  plan-Runs :
      (f : Frame V.World BackupSchedule) (backups : List Backup) (w : V.World)
      → Lists f (ok backups) w
      → Runs f (plan_run V (scan_backups backups start) (behind f w))
  unfolding plan_run create_backup wait_for_run
  plan-Runs f backups w listed =
      let p = scan_backups backups start in
      let clock = V.now w in
      let next_run = p.latest +ℤ f.self.spec.creation_period in
      elim (Bool-cases p.in_progress) [
        | inl u ↦ elim (scan_backups-UnderWay backups start u) [
          | inl e ↦ absurd (ground arith)
          | inr some_one ↦
              let goes : plan_run V p (behind f w)
                  ≡ (done (record { result = requeue; error = none }), behind f w) =
                ground arith in
              subst (Runs f) (sym goes) (under_way listed some_one)
        ]
        | inr over ↦
            let (_, all) = scan_backups-AllFinished backups start over in
            let latest = scan_backups-Latest backups start in
            elim (Bool-cases (ltb_ℤ next_run clock.0)) [
              | inl due ↦
                  let again = V.now clock.1 in
                  let reply = V.backups.create (get_backup f.self (unix again.0)) again.1 in
                  let goes : plan_run V p (behind f w) ≡ (
                    done (record { result = requeue; error = answer_error V reply.0 }),
                    behind f reply.1,
                  ) =
                    elim (Answer-cases reply.0) [
                      | inl (b, q) ↦ ground arith
                      | inr (e, q) ↦ ground arith
                    ] in
                  subst (Runs f) (sym goes)
                    (creates listed all latest refl (ground arith) refl refl)
              | inr early ↦
                  let again = V.now clock.1 in
                  let goes : plan_run V p (behind f w) ≡ (
                    done (record {
                      result = record {
                        requeue = false;
                        requeue_after = sub_time next_run again.0;
                      };
                      error = none;
                    }),
                    behind f again.1,
                  ) =
                    ground arith in
                  subst (Runs f) (sym goes) (waits listed all latest refl (ground arith) refl)
            ]
      ]

  -- A pass over a schedule fails if the backups with the schedule's name cannot be listed, and comes
  -- back at once, without a backup, if one of them is under way. If none is and the last one was
  -- finished more than the creation period before, it asks the server to create the backup that has
  -- the second reading of the clock in its name, returns the error of this call, and comes back at
  -- once. Otherwise it writes nothing, and the delay of its result is the time from the second reading
  -- to the end of the creation period.
  pub schedule-Runs : (f : Frame V.World BackupSchedule) → Runs f (schedule V f)
  unfolding schedule
  schedule-Runs f =
      let reply =
        V.backups.list f.self.metadata.namespace ((cluster_label, f.self.metadata.name) ∷ [])
          f.world in
      elim (Answer-cases reply.0) [
        | inl (backups, p) ↦
            let goes : schedule V f ≡ plan_run V (scan_backups backups start) (behind f reply.1) =
              ground arith in
            subst (Runs f) (sym goes) (plan-Runs f backups reply.1 (ground arith))
        | inr (e, p) ↦
            let goes : schedule V f ≡ (done (failing V (some e)), behind f reply.1) =
              ground arith in
            subst (Runs f) (sym goes) (unlisted (ground arith))
      ]
