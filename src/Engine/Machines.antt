-- ===== src/Engine/Machines.antt =====
-- internal/engine/engine.go: `recordMachineRow`, and a tick of `startMachineKeepalive`.
--
-- `CURRENT_TIMESTAMP` is the clock at the number of the call. `next_id` is AUTOINCREMENT's.
pub mod Laws
use Prim.Native.Nat.{max}
use curio_core.Sql.{update, order_by_desc}
use curio_core.Env.{exec, query, World, Env}
use curio_core.Base.{
  All, Option, Bytes, some, List, ◌&&◌, count_if, any, keep, ◌==◌, ◌∷◌, ◌++◌, if◌then◌else◌, ◌^◌,
  bytes_eq, Bool, ℕ, suc, zero, arith, ap, sym, inr, inl, false, true, none, refl, [], ◌≡◌,
}

pub record MachineRow : Type 0 where
  pub id : ℕ
  pub host_and_port : Bytes
  pub cpu : ℕ
  pub ram : ℕ
  pub gpu : ℕ
  pub last_contact : ℕ

pub record Machines : Type 0 where
  pub rows : List MachineRow
  pub next_id : ℕ

abbrev pub one_gib : ℕ
one_gib = 2 ^ 30

abbrev pub has_host : Bytes → MachineRow → Bool
has_host host r = bytes_eq r.host_and_port host

abbrev pub has_id : ℕ → MachineRow → Bool
has_id id r = r.id == id

abbrev pub refreshed : ℕ → MachineRow → MachineRow
refreshed time r = record r { cpu = 1; ram = one_gib; gpu = 0; last_contact = time }

abbrev pub contacted : ℕ → MachineRow → MachineRow
contacted time r = record r { last_contact = time }

abbrev pub machine : ℕ → Bytes → ℕ → MachineRow
machine id host time = record {
  id = id;
  host_and_port = host;
  cpu = 1;
  ram = one_gib;
  gpu = 0;
  last_contact = time;
}

unfoldable pub insert_machine : Bytes → ℕ → Machines → Machines
insert_machine host time m = record m {
  rows = m.rows ++ (machine m.next_id host time ∷ []);
  next_id = suc m.next_id;
}

-- `INSERT OR IGNORE` with an id
unfoldable pub insert_or_ignore : ℕ → Bytes → ℕ → Machines → Machines
insert_or_ignore id host time m =
    if any (has_id id) m.rows
    then m
    else record m { rows = m.rows ++ (machine id host time ∷ []); next_id = max m.next_id (suc id) }

abbrev pub first_id : List MachineRow → Option ℕ
first_id [] = none
first_id (r ∷ rs) = some r.id

-- `SELECT id … ORDER BY id DESC LIMIT 1`, where no row is an error
abbrev pub latest_id : Bytes → Machines → Option ℕ
latest_id host m = first_id (order_by_desc (λ r. r.id) (keep (has_host host) m.rows))

abbrev pub flat : Option (Option ℕ) → Option ℕ
flat none = none
flat (some o) = o

abbrev pub read_id : Env → Bytes → World Machines → Option ℕ × World Machines
read_id env host w = let (o, w') = query env (latest_id host) w in (flat o, w')

-- behind the UPDATE, with the number of rows that it changed
abbrev pub insert_if_none : Env → Bytes → ℕ → World Machines → Option ℕ × World Machines
insert_if_none env host n w =
    if n == 0
    then (let (ok, w') = exec env (insert_machine host (env.time w.calls)) w in
        if ok then read_id env host w' else (none, w'))
    else read_id env host w

-- the id of the row, or none for an error
unfoldable pub record_machine_row : Env → Bytes → World Machines → Option ℕ × World Machines
record_machine_row env host w =
    let changed = count_if (has_host host) w.store.rows in
    let (ok, w') =
      exec env
        (λ m. record m { rows = update (has_host host) (refreshed (env.time w.calls)) m.rows }) w in
    if ok then insert_if_none env host changed w' else (none, w')

-- one tick of the keepalive
unfoldable pub keepalive_tick : Env → Bytes → ℕ → World Machines → World Machines
keepalive_tick env host id w =
    let changed = count_if (has_id id) w.store.rows in
    let (ok, w') =
      exec env (λ m. record m { rows = update (has_id id) (contacted (env.time w.calls)) m.rows })
        w in
    if ok && changed == 0
    then (exec env (insert_or_ignore id host (env.time w'.calls)) w').1
    else w'
