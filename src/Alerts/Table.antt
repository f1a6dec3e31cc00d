-- ===== src/Alerts/Table.antt =====
-- internal/alerts/alerts.go: `Emit`, `Ack`, `AckAll`, `CountsOf`.
--
-- The maps that a caller passes as context are lists of keys and values; `json.Marshal` of them is the
-- parameter `marshal`, with `none` for its error, and SHA-256 is the parameter `sha256`.
pub mod Laws
pub mod Rows
pub mod Counts
pub mod Recent
use curio_core.Env.{exec, now, query, World, Env}
use curio_core.Base.{
  count_if, ◌||◌, ◌%◌, ◌-◌, ltb, ◌++◌, ◌&&◌, any, ◌/◌, ◌==◌, if◌then◌else◌, ◌∷◌, find, codes,
  bytes_eq, take, not, ◌+◌, Bytes, Bool, Option, List, suc, zero, arith, ap, sym, inr, inl, false,
  true, some, none, refl, [], ℕ, bytes_lt,
}
use curio_core.Sql.{update}

pub record Param : Type 0 where
  pub key : Bytes
  pub value : Bytes  -- as `%v` writes it

pub record Alert : Type 0 where
  pub id : ℕ
  pub fingerprint : Bytes
  pub severity : Bytes
  pub source : Bytes
  pub message : Bytes
  pub context_json : Bytes
  pub first_seen_at : ℕ
  pub last_seen_at : ℕ
  pub count : ℕ
  pub acked : Bool
  pub acked_at : Option ℕ

-- the table, and the next id of `AUTOINCREMENT`
pub record Alerts : Type 0 where
  pub rows : List Alert
  pub next_id : ℕ

pub record EmitArgs : Type 0 where
  pub severity : Bytes
  pub source : Bytes
  pub message : Bytes
  pub fingerprint : Bytes
  pub context : List Param

abbrev pub severity_warning : Bytes
severity_warning = codes "warning"

abbrev pub severity_error : Bytes
severity_error = codes "error"

abbrev pub severity_critical : Bytes
severity_critical = codes "critical"

-- `sort.Strings` of the keys of a map, whose keys are distinct
abbrev pub insert_param : Param → List Param → List Param
insert_param p [] = p ∷ []
insert_param p (q ∷ qs) =
    let rest = insert_param p qs in if bytes_lt q.key p.key then q ∷ rest else p ∷ q ∷ qs

abbrev pub sort_params : List Param → List Param
sort_params [] = []
sort_params (p ∷ ps) = insert_param p (sort_params ps)

abbrev pub write_params : List Param → Bytes
write_params [] = []
write_params (p ∷ ps) = p.key ++ (b'=' ∷ p.value ++ (0 ∷ write_params ps))

abbrev pub hex_digit : ℕ → ℕ
hex_digit n = if ltb n 10 then b'0' + n else b'a' + (n - 10)

abbrev pub hex_encode : Bytes → Bytes
hex_encode [] = []
hex_encode (b ∷ bs) = hex_digit (b / 16) ∷ hex_digit (b % 16) ∷ hex_encode bs

abbrev pub or_else : Bytes → Bytes → Bytes
or_else [] d = d
or_else (c ∷ s) d = c ∷ s

abbrev pub has_print : Bytes → Alert → Bool
has_print fp a = bytes_eq a.fingerprint fp

abbrev pub unacked : Alert → Bool
unacked a = not a.acked

-- `ON CONFLICT(fingerprint) DO UPDATE SET …`
abbrev pub seen_again : Bytes → ℕ → Alert → Alert
seen_again json time a = record a {
  last_seen_at = time;
  context_json = json;
  count = a.count + 1;
  acked = false;
  acked_at = none;
}

abbrev pub new_alert : ℕ → Bytes → Bytes → Bytes → Bytes → Bytes → ℕ → Alert
new_alert id fp severity source message json time = record {
  id = id;
  fingerprint = fp;
  severity = severity;
  source = source;
  message = message;
  context_json = json;
  first_seen_at = time;
  last_seen_at = time;
  count = 1;
  acked = false;
  acked_at = none;
}

-- `INSERT … ON CONFLICT …`
unfoldable pub upsert : Bytes → Bytes → Bytes → Bytes → Bytes → ℕ → Alerts → Alerts
upsert fp severity source message json time s =
    if any (has_print fp) s.rows
    then record s { rows = update (has_print fp) (seen_again json time) s.rows }
    else record {
      rows = s.rows ++ (new_alert s.next_id fp severity source message json time ∷ []);
      next_id = suc s.next_id;
    }

abbrev pub id_of : Option Alert → Option ℕ
id_of none = none
id_of (some a) = some a.id

-- `SELECT id … WHERE fingerprint = …`
unfoldable pub find_id : Bytes → Alerts → Option ℕ
find_id fp s = id_of (find (has_print fp) s.rows)

abbrev pub or_none : Option (Option ℕ) → Option ℕ
or_none none = none
or_none (some o) = o

module _ (marshal : List Param → Option Bytes) (sha256 : Bytes → Bytes) where
  -- `Fingerprint`
  unfoldable pub fingerprint_of : Bytes → List Param → Bytes
  fingerprint_of source params =
      hex_encode (take 16 (sha256 (source ++ (0 ∷ write_params (sort_params params)))))

  abbrev pub context_text : List Param → Bytes
  context_text [] = codes "{}"
  context_text (p ∷ ps) = elim (marshal (p ∷ ps)) [ none ↦ codes "{}" | some json ↦ json ]

  -- the key of the row
  unfoldable pub print_of : EmitArgs → Bytes
  print_of args = or_else args.fingerprint (fingerprint_of args.source args.context)

  abbrev pub upsert_args : EmitArgs → ℕ → Alerts → Alerts
  upsert_args args time s =
      upsert (print_of args) (or_else args.severity severity_warning) args.source args.message
        (context_text args.context) time s

  abbrev pub read_back : Env → Bytes → Bool × World Alerts → Option ℕ × World Alerts
  read_back env fp (false, w) = (none, w)
  read_back env fp (true, w) = let (id, w') = query env (find_id fp) w in (or_none id, w')

  -- `Emit`: the id of the row, or `none` for an error
  unfoldable pub emit : Env → EmitArgs → World Alerts → Option ℕ × World Alerts
  emit env args w =
      if bytes_eq args.source [] || bytes_eq args.message []
      then (none, w)
      else (let (time, w') = now env w in
          read_back env (print_of args) (exec env (upsert_args args time) w'))

abbrev pub acknowledged : ℕ → Alert → Alert
acknowledged time a = record a { acked = true; acked_at = some time }

abbrev pub has_id : ℕ → Alert → Bool
has_id id a = (a.id == id) && unacked a

-- an `UPDATE` of the rows that pass a test, which returns how many it changed
abbrev pub ack_where : (Alert → Bool) → Env → World Alerts → Option ℕ × World Alerts
ack_where p env w =
    let (time, w') = now env w in
    let (done, w'') = exec env (λ s. record s { rows = update p (acknowledged time) s.rows }) w' in
    (if done then some (count_if p w.store.rows) else none, w'')

-- `Ack`
unfoldable pub ack : Env → ℕ → World Alerts → Option ℕ × World Alerts
ack env id w = ack_where (has_id id) env w

-- `AckAll`
unfoldable pub ack_all : Env → World Alerts → Option ℕ × World Alerts
ack_all env w = ack_where unacked env w
