-- ===== src/Commands/Tests.antt =====
-- cmd/curio-core: runs.
use curio_core.Commands.Routes.{inner, combined_router}
use curio_core.Commands.Versions.Laws.{compare_versions-Chain, Chain, opposite}
use curio_core.Commands.Upgrade.Laws.{cmd_upgrade-IsUpgrade, IsUpgrade}
use curio_core.Commands.Versions.{split_version, compare_versions}
use curio_core.Commands.Upgrade.{
  fetch_latest_release, apply_upgrade, ApiReply, UpgradeCalls, cmd_upgrade, Disk,
}
use Prim.Native.Nat.{lt, eq}
use curio_core.Base.{◌∷◌, ◌≡◌, codes, Option, false, true, some, none, refl, []}

compare_versions-Chain_example :
    (compare_versions (codes "v1.2.0") (codes "1.10")
      ≡ opposite (compare_versions (codes "1.10") (codes "v1.2.0")))
    × Chain
        (compare_versions (codes "v1.2.0") (codes "1.10"))
        (compare_versions (codes "1.10") (codes "2.0.0-rc"))
        (compare_versions (codes "v1.2.0") (codes "2.0.0-rc"))
compare_versions-Chain_example =
    compare_versions-Chain (codes "v1.2.0") (codes "1.10") (codes "2.0.0-rc")

compares_fields : compare_versions (codes "v1.2.0") (codes "1.10") ≡ lt
unfolding compare_versions split_version
compares_fields = refl

prefers_release : compare_versions (codes "1.0.0-rc") (codes "1.0.0") ≡ lt
unfolding compare_versions split_version
prefers_release = refl

-- the suffixes are compared as texts
misranks_suffix : compare_versions (codes "1.0.0-rc10") (codes "1.0.0-rc9") ≡ lt
unfolding compare_versions split_version
misranks_suffix = refl

-- what is not a number counts as 0
equates_words : compare_versions (codes "alpha") (codes "beta") ≡ eq
unfolding compare_versions split_version
equates_words = refl

abbrev smooth : UpgradeCalls
smooth = record {
  executable = true;
  eval_symlinks = true;
  create_temp = true;
  new_request = true;
  status = some 200;
  body = codes "new";
  copy = true;
  chmod = true;
  rename = true;
  remove = true;
}

abbrev reply : Option ApiReply
reply = some (record {
  status = 200;
  releases = none;
  release = some (record {
    tag_name = codes "v2";
    assets = record { name = codes "core"; browser_download_url = codes "url"; size = 3 } ∷ [];
  });
})

abbrev old : Disk
old = record { self = record { bytes = codes "old"; executable = true }; temp = none }

cmd_upgrade-IsUpgrade_example :
    IsUpgrade smooth true
      (codes "v1")
      (codes "core")
      (fetch_latest_release false reply)
      old
      (cmd_upgrade smooth true false (codes "v1") (codes "core") reply old)
cmd_upgrade-IsUpgrade_example =
    cmd_upgrade-IsUpgrade smooth true false (codes "v1") (codes "core") reply old

upgrades :
    (cmd_upgrade smooth true false (codes "v1") (codes "core") reply old).1.self
    ≡ record { bytes = codes "new"; executable = true }
unfolding cmd_upgrade apply_upgrade fetch_latest_release compare_versions split_version
upgrades = refl

routes_by_element : combined_router (codes "/pieces") ≡ inner
unfolding combined_router
routes_by_element = refl
