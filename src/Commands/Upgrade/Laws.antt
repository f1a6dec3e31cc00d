-- ===== src/Commands/Upgrade/Laws.antt =====
-- cmd/curio-core/cmd_upgrade.go: the executable is the old one or the whole new one.
use curio_core.Commands.Upgrade.{
  upgrade_to, compare_versions, fetch_latest_release, install, is_short, lt, with_temp, download,
  find_asset, Disk, ApiReply, GhRelease, is_less, Ordering, UpgradeCalls, apply_upgrade,
  cmd_upgrade,
}
use Prim.Native.Nat.{Ordering, lt, eq, gt}
use curio_core.Base.{
  ◌==◌, ◌||◌, bytes_eq, not, length, ◌⊎◌, Bool-cases, ◌≡◌, Bytes, Option, ℕ, arith, inr, inl, false,
  true, some, none, refl, [], Bool,
}

-- no error, and the executable is what was downloaded, of the size that the release tells, if it tells one
abbrev pub IsInstalled : UpgradeCalls → ℕ → Bool × Disk → Type 0
IsInstalled c size r =
    (r.0 ≡ true)
    × (r.1.self ≡ record { bytes = c.body; executable = true })
    × (c.copy ≡ true)
    × ((size ≡ 0) ⊎ (length c.body ≡ size))

abbrev IsReplaced : UpgradeCalls → ℕ → Disk → Bool × Disk → Type 0
IsReplaced c size d r = (r.1.self ≡ d.self) ⊎ IsInstalled c size r

is_less_lem : (o : Ordering) → is_less o ≡ true → o ≡ lt
is_less_lem lt h = refl
is_less_lem eq h = absurd (ground (arith, h))
is_less_lem gt h = absurd (ground (arith, h))

install-IsReplaced :
    (c : UpgradeCalls) (size : ℕ) (d : Disk)
    → c.copy ≡ true
    → is_short size c.body ≡ false
    → IsReplaced c size d (install c (record { bytes = c.body; executable = false }) d)
install-IsReplaced c size d k s = elim (Bool-cases c.chmod) [
  | inl e ↦ elim (Bool-cases c.rename) [
    | inl f ↦ rw (e, f) (inr (refl, refl, k, whole))
    | inr f ↦ rw (e, f) (inl refl)
  ]
  | inr e ↦ rw e (inl refl)
]
  where
    whole : (size ≡ 0) ⊎ (length c.body ≡ size)
    whole = ground (arith, s)

download-IsReplaced :
    (c : UpgradeCalls) (size : ℕ) (d : Disk) (status : Option ℕ)
    → IsReplaced c size d (download c size d status)
download-IsReplaced c size d none = inl refl
download-IsReplaced c size d (some status) = elim (Bool-cases (not (status == 200))) [
  | inl e ↦ rw e (inl refl)
  | inr e ↦ elim (Bool-cases (not c.copy || is_short size c.body)) [
    | inl f ↦ rw (e, f) (inl refl)
    | inr f ↦ rw (e, f) (install-IsReplaced c size d (ground (arith, f)) (ground (arith, f)))
  ]
]

with_temp-IsReplaced :
    (c : UpgradeCalls) (size : ℕ) (d : Disk) → IsReplaced c size d (with_temp c size d)
with_temp-IsReplaced c size d = elim (Bool-cases c.new_request) [
  | inl e ↦ rw e (download-IsReplaced c size d c.status)
  | inr e ↦ rw e (inl refl)
]

apply_upgrade-IsReplaced :
    (c : UpgradeCalls) (want : Bytes) (rel : GhRelease) (d : Disk)
    → IsReplaced c (find_asset want rel.assets).1 d (apply_upgrade c want rel d)
unfolding apply_upgrade
apply_upgrade-IsReplaced c want rel d =
    elim (Bool-cases (
      bytes_eq (find_asset want rel.assets).0 []
      || not c.executable
      || not c.eval_symlinks
      || not c.create_temp)) [
        | inl e ↦ rw e (inl refl)
        | inr e ↦ rw e (
            with_temp-IsReplaced c (find_asset want rel.assets).1
              (record d { temp = some (record { bytes = []; executable = false }) }))
      ]

-- the outcome of an upgrade from a release that may be there
abbrev pub IsUpgrade :
    UpgradeCalls → Bool → Bytes → Bytes → Option GhRelease → Disk → Bool × Disk → Type 0
IsUpgrade c apply current want o d r =
    (r.1.self ≡ d.self)
    ⊎ ((apply ≡ true)
        × ((rel : GhRelease) × (o ≡ some rel)
            × (compare_versions current rel.tag_name ≡ lt)
            × IsInstalled c (find_asset want rel.assets).1 r))

upgrade_to-IsUpgrade :
    (c : UpgradeCalls) (apply : Bool) (current want : Bytes) (o : Option GhRelease) (d : Disk)
    → IsUpgrade c apply current want o d (upgrade_to c apply current want o d)
upgrade_to-IsUpgrade c apply current want none d = inl refl
upgrade_to-IsUpgrade c false current want (some rel) d =
    elim (Bool-cases (is_less (compare_versions current rel.tag_name))) [
      | inl e ↦ rw e (inl refl)
      | inr e ↦ rw e (inl refl)
    ]
upgrade_to-IsUpgrade c true current want (some rel) d =
    elim (Bool-cases (is_less (compare_versions current rel.tag_name))) [
      | inl e ↦ rw e (applied (is_less_lem (compare_versions current rel.tag_name) e))
      | inr e ↦ rw e (inl refl)
    ]
  where
    applied :
        compare_versions current rel.tag_name ≡ lt
        → IsUpgrade c true current want (some rel) d (apply_upgrade c want rel d)
    applied newer = elim (apply_upgrade-IsReplaced c want rel d) [
      | inl same ↦ inl same
      | inr installed ↦ inr (refl, (rel, refl, newer, installed))
    ]

-- Whatever fails, the executable stays as it was, or the command was told to apply a release that
-- GitHub gave and that is newer, returns no error, and the executable is the whole download, of the
-- size that the release tells, if it tells one.
pub cmd_upgrade-IsUpgrade :
    (c : UpgradeCalls) (apply include_pre : Bool) (current want : Bytes) (reply : Option ApiReply)
    → (d : Disk)
    → IsUpgrade c apply current want
        (fetch_latest_release include_pre reply)
        d
        (cmd_upgrade c apply include_pre current want reply d)
unfolding cmd_upgrade
cmd_upgrade-IsUpgrade c apply include_pre current want reply d =
    upgrade_to-IsUpgrade c apply current want (fetch_latest_release include_pre reply) d
