-- ===== src/Commands/Upgrade.antt =====
-- cmd/curio-core/cmd_upgrade.go: `cmdUpgrade`, `fetchLatestRelease` and `applyUpgrade`.
--
-- The answers of the system and of GitHub are arguments. The state is the executable and the temporary
-- file beside it; a write that fails leaves a part of the download.
pub mod Laws
use curio_core.Commands.Versions.{compare_versions}
use Prim.Native.Nat.{Ordering, lt, eq, gt}
use curio_core.Base.{
  ◌||◌, length, bytes_eq, ◌&&◌, ◌==◌, not, if◌then◌else◌, ltb, ◌∷◌, Bytes, List, ℕ, suc, zero,
  arith, ap, sym, inr, inl, false, true, some, none, refl, [], Bool, Option,
}

pub record Asset : Type 0 where
  pub name : Bytes
  pub browser_download_url : Bytes
  pub size : ℕ  -- 0 where it is not above 0

pub record GhRelease : Type 0 where
  pub tag_name : Bytes
  pub assets : List Asset

-- a reply of the releases API; each decoded form is none where the JSON does not have it
pub record ApiReply : Type 0 where
  pub status : ℕ
  pub releases : Option (List GhRelease)
  pub release : Option GhRelease

abbrev pub first_release : Option (List GhRelease) → Option GhRelease
first_release none = none
first_release (some []) = none
first_release (some (r ∷ rs)) = some r

-- none for an error; the reply is none where the request fails
unfoldable pub fetch_latest_release : Bool → Option ApiReply → Option GhRelease
fetch_latest_release include_pre none = none
fetch_latest_release include_pre (some reply) =
    if reply.status == 404
    then none
    else if not (reply.status == 200)
    then none
    else if include_pre
    then first_release reply.releases
    else reply.release

pub record File : Type 0 where
  pub bytes : Bytes
  pub executable : Bool

pub record Disk : Type 0 where
  pub self : File
  pub temp : Option File

-- what an upgrade meets
pub record UpgradeCalls : Type 0 where
  pub executable : Bool
  pub eval_symlinks : Bool
  pub create_temp : Bool
  pub new_request : Bool
  pub status : Option ℕ  -- none where the download cannot start
  pub body : Bytes  -- what is written of it
  pub copy : Bool
  pub chmod : Bool
  pub rename : Bool
  pub remove : Bool

-- the first asset of the name, as its URL and its size
abbrev pub find_asset : Bytes → List Asset → Bytes × ℕ
find_asset want [] = ([], 0)
find_asset want (a ∷ assets) =
    let rest = find_asset want assets in
    if bytes_eq a.name want then (a.browser_download_url, a.size) else rest

-- the deferred removal
abbrev pub cleaned : UpgradeCalls → Bool × Disk → Bool × Disk
cleaned c (ok, d) = (ok, record d { temp = if c.remove then none else d.temp })

abbrev pub install : UpgradeCalls → File → Disk → Bool × Disk
install c f d =
    if c.chmod
    then (if c.rename
        then (true, record { self = record f { executable = true }; temp = none })
        else (false, record d { temp = some (record f { executable = true }) }))
    else (false, record d { temp = some f })

abbrev pub is_short : ℕ → Bytes → Bool
is_short size body = ltb 0 size && not (length body == size)

-- behind the creation of the temporary file, which is empty
abbrev pub download : UpgradeCalls → ℕ → Disk → Option ℕ → Bool × Disk
download c size d none = (false, d)
download c size d (some status) =
    if not (status == 200)
    then (false, d)
    else (let f : File = record { bytes = c.body; executable = false } in
        if not c.copy || is_short size c.body
        then (false, record d { temp = some f })
        else install c f d)

abbrev pub with_temp : UpgradeCalls → ℕ → Disk → Bool × Disk
with_temp c size d = if c.new_request then download c size d c.status else (false, d)

-- true where no error is returned
unfoldable pub apply_upgrade : UpgradeCalls → Bytes → GhRelease → Disk → Bool × Disk
apply_upgrade c want rel d =
    let (url, size) = find_asset want rel.assets in
    if bytes_eq url [] || not c.executable || not c.eval_symlinks || not c.create_temp
    then (false, d)
    else cleaned c
        (with_temp c size (record d { temp = some (record { bytes = []; executable = false }) }))

abbrev pub is_less : Ordering → Bool
is_less lt = true
is_less eq = false
is_less gt = false

abbrev pub upgrade_to : UpgradeCalls → Bool → Bytes → Bytes → Option GhRelease → Disk → Bool × Disk
upgrade_to c apply current want none d = (false, d)
upgrade_to c apply current want (some rel) d =
    if is_less (compare_versions current rel.tag_name)
    then (if apply then apply_upgrade c want rel d else (true, d))
    else (true, d)

unfoldable pub cmd_upgrade :
    UpgradeCalls → Bool → Bool → Bytes → Bytes → Option ApiReply → Disk → Bool × Disk
cmd_upgrade c apply include_pre current want reply d =
    upgrade_to c apply current want (fetch_latest_release include_pre reply) d
