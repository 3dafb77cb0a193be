-- ===== src/BackupController/Removal.antt =====
-- What `RemoveStale` deletes, and in which order (controllers/backup_controller.go).
use etcdops.Base.{String, ◌≡◌, arith, Bool-cases, Option-cases, some, none, inl, inr, sym, subst}
use etcdops.Base.Int.{◌≤ℤ◌, ◌<ℤ◌, ltb_ℤ}
use etcdops.Kube.{Outcome, done, Frame}
use etcdops.Types.Backup.{Backup}
use etcdops.Env.{Env, Ret, failing}
use etcdops.BackupController.{object_key, retention_time, wait_until, delete_backup, remove_stale}

module _ (V : Env) (s3_bucket s3_prefix : String) where
  abbrev behind : Frame V.World Backup → V.World → Frame V.World Backup
  behind f w = record f { world = w }

  -- The ways through `RemoveStale`
  pub data Removes (f : Frame V.World Backup)
      : Outcome (Ret V) × Frame V.World Backup → Type 0 where
    fresh :
        (V.now f.world).0 ≤ℤ retention_time f.self
        → Removes f (wait_until V (retention_time f.self) (behind f (V.now f.world).1))
    object_stays :
        {e : V.Error} {w : V.World}
        → retention_time f.self <ℤ (V.now f.world).0
        → V.delete_object s3_bucket (object_key s3_prefix f.self) (V.now f.world).1 ≡ (some e, w)
        → Removes f (done (failing V (some e)), behind f w)
    backup_stays :
        {e : V.Error} {w v : V.World}
        → retention_time f.self <ℤ (V.now f.world).0
        → V.delete_object s3_bucket (object_key s3_prefix f.self) (V.now f.world).1 ≡ (none, w)
        → V.backups.delete f.self w ≡ (some e, v)
        → Removes f (done (failing V (V.ignore_not_found e)), behind f v)
    removed :
        {w v : V.World}
        → retention_time f.self <ℤ (V.now f.world).0
        → V.delete_object s3_bucket (object_key s3_prefix f.self) (V.now f.world).1 ≡ (none, w)
        → V.backups.delete f.self w ≡ (none, v)
        → Removes f (wait_until V (retention_time f.self) (behind f v))

  -- `RemoveStale` deletes nothing until the retention time of the backup is over. Then it deletes the
  -- object under the backup's key first, and the backup itself only if that had no error. An error of
  -- the first deletion is returned, and so is what `IgnoreNotFound` leaves of one of the second. If
  -- nothing or all is deleted, the pass ends with the wait for the retention time.
  pub remove_stale-Removes :
      (f : Frame V.World Backup) → Removes f (remove_stale V s3_bucket s3_prefix f)
  unfolding remove_stale delete_backup
  remove_stale-Removes f =
      let clock = V.now f.world in
      let u = remove_stale V s3_bucket s3_prefix f in
      elim (Bool-cases (ltb_ℤ (retention_time f.self) clock.0)) [
        | inr h ↦
            let goes : u ≡ wait_until V (retention_time f.self) (behind f clock.1) = ground arith in
            subst (Removes f) (sym goes) (fresh (ground arith))
        | inl h ↦
            let object = V.delete_object s3_bucket (object_key s3_prefix f.self) clock.1 in
            elim (Option-cases object.0) [
              | inr (e, p) ↦
                  let goes : u ≡ (done (failing V (some e)), behind f object.1) = ground arith in
                  subst (Removes f) (sym goes) (object_stays (ground arith) (ground arith))
              | inl p ↦
                  let reply = V.backups.delete f.self object.1 in
                  elim (Option-cases reply.0) [
                    | inr (e, q) ↦
                        let goes : u ≡ (done (failing V (V.ignore_not_found e)), behind f reply.1) =
                          ground arith in
                        subst (Removes f) (sym goes)
                          (backup_stays {w = object.1} (ground arith) (ground arith) (ground arith))
                    | inl q ↦
                        let goes : u ≡ wait_until V (retention_time f.self) (behind f reply.1) =
                          ground arith in
                        subst (Removes f) (sym goes)
                          (removed {w = object.1} (ground arith) (ground arith) (ground arith))
                  ]
            ]
      ]
