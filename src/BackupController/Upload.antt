-- ===== src/BackupController/Upload.antt =====
-- What a pass over a backup leaves in its status (controllers/backup_controller.go).
use etcdops.Base.{
  String, true, ◌≡◌, ◌⊎◌, inl, inr, arith, Bool-cases, Option-cases, some, sym, ◌∙◌, subst, ap,
}
use etcdops.Kube.{ok, done, Frame, is_zero_time}
use etcdops.Kube.Laws.{Answer-cases, Outcome-cases}
use etcdops.Types.Backup.{Backup}
use etcdops.Env.{Env}
use etcdops.BackupController.{
  object_key, take_snapshot, wait_until, upload_snapshot, upload_backup, delete_backup,
  remove_stale, upload_if_unfinished, reconcile_body,
}

module _ (V : Env) (s3_bucket s3_prefix : String) where
  abbrev pub behind : Frame V.World Backup → V.World → Frame V.World Backup
  behind f w = record f { world = w }

  -- A snapshot was taken for `f`, it was stored under the key of the backup, and `b` records that.
  pub record Uploaded (f : Frame V.World Backup) (b : Backup) : Type 0 where
    pub snapshot : V.etcd.Snapshot
    pub behind_snapshot : V.World
    pub behind_upload : V.World
    pub location : String
    pub unfinished : is_zero_time f.self.status.finished ≡ true
    pub taken : take_snapshot V f ≡ (done (ok (some snapshot)), behind f behind_snapshot)
    pub stored :
        V.upload s3_bucket (object_key s3_prefix f.self) snapshot behind_snapshot
        ≡ (ok location, behind_upload)
    pub recorded :
        b
        ≡ record (f.self) { status = record { finished = (V.now behind_upload).0; url = location } }

  -- The status stays as it is, or an upload changed it.
  abbrev Tracks : Frame V.World Backup → Backup → Type 0
  Tracks f b = (b ≡ f.self) ⊎ Uploaded f b

  take_snapshot-self : (f : Frame V.World Backup) → (take_snapshot V f).1.self ≡ f.self
  unfolding take_snapshot
  take_snapshot-self f = ground arith

  remove_stale-self :
      (f : Frame V.World Backup) → (remove_stale V s3_bucket s3_prefix f).1.self ≡ f.self
  unfolding remove_stale delete_backup wait_until
  remove_stale-self f = ground arith

  upload_snapshot-Tracks :
      (f : Frame V.World Backup) (snapshot : V.etcd.Snapshot) (w : V.World)
      → is_zero_time f.self.status.finished ≡ true
      → take_snapshot V f ≡ (done (ok (some snapshot)), behind f w)
      → Tracks f (upload_snapshot V s3_bucket s3_prefix snapshot (behind f w)).1.self
  unfolding upload_snapshot
  upload_snapshot-Tracks f snapshot w unfinished taken =
      let reply = V.upload s3_bucket (object_key s3_prefix f.self) snapshot w in
      elim (Answer-cases reply.0) [
        | inr (e, p) ↦ inl (ground arith)
        | inl (location, p) ↦ inr (record {
          snapshot = snapshot;
          behind_snapshot = w;
          behind_upload = reply.1;
          location = location;
          unfinished = unfinished;
          taken = taken;
          stored = ground arith;
          recorded = ground arith;
        })
      ]

  upload_backup-Tracks :
      (f : Frame V.World Backup)
      → is_zero_time f.self.status.finished ≡ true
      → Tracks f (upload_backup V s3_bucket s3_prefix f).1.self
  unfolding upload_backup
  upload_backup-Tracks f unfinished =
      let attempt = take_snapshot V f in
      let same = take_snapshot-self f in
      elim (Outcome-cases attempt.0) [
        | inr p ↦ inl (ground (arith, same))
        | inl (a, p) ↦ elim (Answer-cases a) [
          | inr (e, q) ↦ inl (ground (arith, same))
          | inl (o, q) ↦ elim (Option-cases o) [
            | inl r ↦ inl (ground (arith, same))
            | inr (snapshot, r) ↦
                let g = behind f attempt.1.world in
                let taken : attempt ≡ (done (ok (some snapshot)), g) = ground (arith, same) in
                let goes : upload_backup V s3_bucket s3_prefix f
                    ≡ upload_snapshot V s3_bucket s3_prefix snapshot g =
                  ground arith in
                subst (λ u. Tracks f u.1.self) (sym goes)
                  (upload_snapshot-Tracks f snapshot g.world unfinished taken)
          ]
        ]
      ]

  -- A pass over a backup leaves its metadata, spec and status as they are, or the backup was not
  -- finished: then a snapshot was taken and stored under the backup's key, and the status has the
  -- location and the time after the upload.
  pub reconcile_body-Tracks :
      (f : Frame V.World Backup)
      → ((reconcile_body V s3_bucket s3_prefix f).1.self ≡ f.self)
        ⊎ Uploaded f (reconcile_body V s3_bucket s3_prefix f).1.self
  unfolding reconcile_body upload_if_unfinished
  reconcile_body-Tracks f =
      let first = upload_if_unfinished V s3_bucket s3_prefix f in
      let kept : (reconcile_body V s3_bucket s3_prefix f).1.self ≡ first.1.self =
        ground (arith, remove_stale-self first.1) in
      elim (Bool-cases (is_zero_time f.self.status.finished)) [
        | inr finished ↦ inl (kept ∙ ground arith)
        | inl unfinished ↦
            let goes : first ≡ upload_backup V s3_bucket s3_prefix f = ground arith in
            subst (Tracks f) (sym (kept ∙ ap (λ u. u.1.self) goes))
              (upload_backup-Tracks f unfinished)
      ]
