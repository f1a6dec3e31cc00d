-- ===== src/Dashboard/Messages.antt =====
-- internal/dashboard/dashboard.go: the views of the messages, and the operator's two repairs.
--
-- The nonce of a sender comes from the chain client: an argument, none for an error. Nonces stay
-- below 2^63, so that `int64` keeps them. SQLite sorts NULL below every number.
pub mod Laws
use curio_core.Env.{query, exec, World, Env}
use curio_core.Sql.{delete, lower, order_by_desc}
use curio_core.Base.{
  count_if, take, ◌++◌, keep, any, ◌&&◌, map, ◌||◌, bytes_eq, ◌∷◌, if◌then◌else◌, codes, ◌==◌, ltb,
  not, Bytes, Bool, Option, List, ℕ, suc, zero, arith, ap, sym, inr, inl, false, true, some, none,
  refl, [], ◌≡◌,
}

-- a row of message_sends_eth
pub record SendRow : Type 0 where
  pub from_address : Bytes
  pub nonce : Option ℕ
  pub signed_hash : Option Bytes
  pub send_error : Option Bytes

-- a row of message_waits_eth
pub record WaitRow : Type 0 where
  pub rowid : ℕ
  pub signed_tx_hash : Option Bytes
  pub tx_status : Option Bytes
  pub tx_success : Option ℕ
  pub confirmed_block_number : Option ℕ

pub record Mpool : Type 0 where
  pub sends : List SendRow
  pub waits : List WaitRow

pub record MessageRow : Type 0 where
  pub hash : Option Bytes
  pub nonce : Option ℕ
  pub status : Option Bytes
  pub success : Option ℕ
  pub send_err : Option Bytes
  pub state_label : Bytes

-- `lower(a) = lower(b)`, which NULL never is
abbrev pub same_hash : Option Bytes → Option Bytes → Bool
same_hash none b = false
same_hash (some a) none = false
same_hash (some a) (some b) = bytes_eq (lower a) (lower b)

abbrev pub text_is : Bytes → Option Bytes → Bool
text_is t none = false
text_is t (some s) = bytes_eq s t

abbrev pub number_is : ℕ → Option ℕ → Bool
number_is n none = false
number_is n (some m) = m == n

abbrev pub or_pending : Option Bytes → Option Bytes
or_pending none = some (codes "pending")
or_pending (some s) = some s

abbrev pub is_set : {A : Type 0} → Option A → Bool
is_set none = false
is_set (some a) = true

abbrev pub null_low : Option ℕ → ℕ
null_low none = 0
null_low (some n) = suc n

-- one send with one wait, or with NULLs where no wait fits
abbrev pub pending_row : SendRow → Option WaitRow → MessageRow
pending_row s none = record {
  hash = s.signed_hash;
  nonce = s.nonce;
  status = some (codes "pending");
  success = none;
  send_err = s.send_error;
  state_label = [];
}
pending_row s (some w) = record {
  hash = s.signed_hash;
  nonce = s.nonce;
  status = or_pending w.tx_status;
  success = w.tx_success;
  send_err = s.send_error;
  state_label = [];
}

abbrev pub is_pending_wait : WaitRow → Bool
is_pending_wait w = not (is_set w.tx_status) || text_is (codes "pending") w.tx_status

-- the rows that a send gives in the left join
abbrev pub join_waits : SendRow → List WaitRow → List MessageRow
join_waits s [] = pending_row s none ∷ []
join_waits s (w ∷ ws) = map (λ x. pending_row s (some x)) (keep is_pending_wait (w ∷ ws))

abbrev pub pending_of : List WaitRow → List SendRow → List MessageRow
pending_of waits [] = []
pending_of waits (s ∷ sends) =
    let rest = pending_of waits sends in
    if is_set s.signed_hash
    then join_waits s (keep (λ w. same_hash w.signed_tx_hash s.signed_hash) waits) ++ rest
    else rest

abbrev pub history_row : WaitRow → Option SendRow → MessageRow
history_row w none = record {
  hash = w.signed_tx_hash;
  nonce = none;
  status = w.tx_status;
  success = w.tx_success;
  send_err = none;
  state_label = [];
}
history_row w (some s) = record {
  hash = w.signed_tx_hash;
  nonce = s.nonce;
  status = w.tx_status;
  success = w.tx_success;
  send_err = s.send_error;
  state_label = [];
}

abbrev pub join_sends : WaitRow → List SendRow → List MessageRow
join_sends w [] = history_row w none ∷ []
join_sends w (s ∷ sends) = map (λ x. history_row w (some x)) (s ∷ sends)

abbrev pub is_done : WaitRow → Bool
is_done w = text_is (codes "confirmed") w.tx_status || text_is (codes "failed") w.tx_status

abbrev pub history_of : List SendRow → List WaitRow → List MessageRow
history_of sends [] = []
history_of sends (w ∷ waits) =
    join_sends w (keep (λ s. same_hash s.signed_hash w.signed_tx_hash) sends)
    ++ history_of sends waits

abbrev pub or_text : Option Bytes → Bytes
or_text none = []
or_text (some s) = s

abbrev pub label_of : MessageRow → Bytes
label_of m =
    if is_set m.send_err && not (text_is [] m.send_err)
    then codes "send-failed"
    else if not (is_set m.status) || text_is (codes "pending") m.status
    then codes "pending"
    else if number_is 0 m.success
    then codes "REVERTED"
    else if number_is 1 m.success
    then codes "success"
    else or_text m.status

abbrev pub labelled : MessageRow → MessageRow
labelled m = record m { state_label = label_of m }

pub record MessagesData : Type 0 where
  pub pending : List MessageRow
  pub history : List MessageRow
  pub reverted : ℕ

unfoldable pub handle_messages : Mpool → MessagesData
handle_messages db =
    let done =
      order_by_desc (λ w. null_low w.confirmed_block_number)
        (order_by_desc (λ w. w.rowid) (keep is_done db.waits)) in
    let history = map labelled (take 100 (history_of db.sends done)) in
    record {
      pending =
          map labelled
            (take 50 (order_by_desc (λ m. null_low m.nonce) (pending_of db.waits db.sends)));
      history = history;
      reverted = count_if (λ m. bytes_eq m.state_label (codes "REVERTED")) history;
    }

abbrev pub insert_distinct : Bytes → List Bytes → List Bytes
insert_distinct a seen = if any (bytes_eq a) seen then seen else seen ++ (a ∷ [])

-- `SELECT DISTINCT from_address`
abbrev pub distinct_senders : List SendRow → List Bytes → List Bytes
distinct_senders [] seen = seen
distinct_senders (s ∷ sends) seen = distinct_senders sends (insert_distinct s.from_address seen)

-- `a <> b`, which is not true of a NULL
abbrev pub differs : Option Bytes → Option Bytes → Bool
differs none b = false
differs (some a) none = false
differs (some a) (some b) = not (bytes_eq a b)

-- `signed_hash NOT IN (SELECT signed_tx_hash …)`
abbrev pub not_in : Option Bytes → List WaitRow → Bool
not_in h [] = true
not_in h (w ∷ ws) = differs h w.signed_tx_hash && not_in h ws

abbrev pub below : ℕ → Option ℕ → Bool
below n none = false
below n (some m) = ltb m n

abbrev pub is_stale : Bytes → ℕ → List WaitRow → SendRow → Bool
is_stale sender nonce waits s =
    bytes_eq s.from_address sender && below nonce s.nonce && not_in s.signed_hash waits

abbrev pub clear_below : Env → Bytes → Option ℕ → World Mpool → World Mpool
clear_below env sender none w = w
clear_below env sender (some nonce) w =
    (exec env (λ db. record db { sends = delete (is_stale sender nonce db.waits) db.sends }) w).1

abbrev pub clear_senders : Env → (Bytes → Option ℕ) → List Bytes → World Mpool → World Mpool
clear_senders env pending_nonce [] w = w
clear_senders env pending_nonce (sender ∷ senders) w =
    clear_senders env pending_nonce senders (clear_below env sender (pending_nonce sender) w)

abbrev pub or_none : Option (List Bytes) → List Bytes
or_none none = []
or_none (some senders) = senders

-- `has_eth`: is there a chain client?
unfoldable pub handle_clear_stale_messages :
    Env → Bool → (Bytes → Option ℕ) → World Mpool → World Mpool
handle_clear_stale_messages env has_eth pending_nonce w =
    if has_eth
    then (let (senders, w') = query env (λ db. distinct_senders db.sends []) w in
        clear_senders env pending_nonce (or_none senders) w')
    else w
