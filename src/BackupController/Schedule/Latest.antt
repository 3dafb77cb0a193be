-- ===== src/BackupController/Schedule/Latest.antt =====
-- The loop of `Schedule` over the backups (controllers/backupschedule_controller.go).
use etcdops.Base.{
  Bool, true, false, List, [], ◌∷◌, ◌≡◌, refl, sym, ◌∙◌, ◌⊎◌, inl, inr, arith, Bool-cases, Memᴰ,
  All,
}
use etcdops.Base.Int.{◌≤ℤ◌, ltb_ℤ}
use etcdops.Kube.{Time, is_zero_time}
use etcdops.Types.Backup.{Backup}
use etcdops.BackupController.Schedule.{Progress, scan_backup, scan_backups}

abbrev pub unfinished : Backup → Bool
unfinished b = is_zero_time b.status.finished

-- Some backup of the list is under way.
abbrev pub UnderWay : List Backup → Type 0
UnderWay backups = (b : Backup) × Memᴰ b backups × (unfinished b ≡ true)

abbrev pub AllFinished : List Backup → Type 0
AllFinished backups = All (λ b. unfinished b ≡ false) backups

-- `t` is the last instant at which a backup of the list was finished, or `start` if none is later.
abbrev pub Latest : Time → Time → List Backup → Type 0
Latest start t backups =
    (start ≤ℤ t)
    × All (λ b. b.status.finished ≤ℤ t) backups
    × ((t ≡ start) ⊎ ((b : Backup) × Memᴰ b backups × (b.status.finished ≡ t)))

scan_backup-latest :
    (b : Backup) (p : Progress)
    → (p.latest ≤ℤ (scan_backup b p).latest)
      × (b.status.finished ≤ℤ (scan_backup b p).latest)
      × (((scan_backup b p).latest ≡ p.latest) ⊎ ((scan_backup b p).latest ≡ b.status.finished))
unfolding scan_backup
scan_backup-latest b p = elim (Bool-cases (ltb_ℤ p.latest b.status.finished)) [
  | inl h ↦ (ground arith, ground arith, inr (ground arith))
  | inr h ↦ (ground arith, ground arith, inl (ground arith))
]

pub scan_backups-Latest :
    (backups : List Backup) (p : Progress) → Latest p.latest (scan_backups backups p).latest backups
unfolding scan_backups
scan_backups-Latest [] p = (omega arith, tt, inl refl)
scan_backups-Latest (b ∷ backups) p =
    let (start, finished, source) = scan_backup-latest b p in
    let (later, all, attained) = scan_backups-Latest backups (scan_backup b p) in
    (
      omega arith,
      (omega arith, all),
      elim attained [
        | inr (c, i, e) ↦ inr (c, Memᴰ.tail i, e)
        | inl e ↦ elim source [
          | inl kept ↦ inl (e ∙ kept)
          | inr taken ↦ inr (b, Memᴰ.head refl, sym (e ∙ taken))
        ]
      ],
    )

pub scan_backups-AllFinished :
    (backups : List Backup) (p : Progress)
    → (scan_backups backups p).in_progress ≡ false
    → (p.in_progress ≡ false) × AllFinished backups
unfolding scan_backups
scan_backups-AllFinished [] p h = (h, tt)
scan_backups-AllFinished (b ∷ backups) p h =
    let (now, all) = scan_backups-AllFinished backups (scan_backup b p) h in
    elim (Bool-cases (unfinished b)) [
      | inl u ↦ absurd (ground arith)
      | inr f ↦ (ground arith, (f, all))
    ]

pub scan_backups-UnderWay :
    (backups : List Backup) (p : Progress)
    → (scan_backups backups p).in_progress ≡ true
    → (p.in_progress ≡ true) ⊎ UnderWay backups
unfolding scan_backups
scan_backups-UnderWay [] p h = inl h
scan_backups-UnderWay (b ∷ backups) p h = elim (scan_backups-UnderWay backups (scan_backup b p) h) [
  | inr (c, i, u) ↦ inr (c, Memᴰ.tail i, u)
  | inl now ↦ elim (Bool-cases (unfinished b)) [
    | inl u ↦ inr (b, Memᴰ.head refl, u)
    | inr f ↦ inl (ground arith)
  ]
]
