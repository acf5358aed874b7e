-- ===== src/Examples.antt =====
-- The results at concrete inputs: a server that reads decimal integers, an IOU that is minted and
-- moved, and deliveries that repeat.
pub mod Deliveries
pub mod Starts
mod Schemas
mod Counts
use clear_evmi_plugin.Prelude.{
  arith, ◌≤◌, ◌<◌, List, true, max, coalesce, or_else, ◌==◌, ap, ℕ, zero, suc, ◌*◌, ◌/◌, ◌^◌, ◌≡◌,
  refl, sym, leb, ◌&&◌, ◌↔◌, false, String, [], ◌∷◌, Option, none, some, nat_eq, Bool-cases, inl,
  inr, if◌then◌else◌, ==-eq, nat_equality, string_equality, list_equality, pair_equality,
  triple_equality,
}
use mathlib.Core.Option
use clear_evmi_plugin.Prelude.Int.{ℤ, pos, negsuc, ◌-ℤ◌, int_laws}
use clear_evmi_plugin.Text.{Text, text, to_lower, trim_space, has_prefix, contains}
use clear_evmi_plugin.Address.{norm_addr, is_zero_addr, zero_address, norm_addr_idem}
use clear_evmi_plugin.Args.{zero_text, neg, first_arg, arg}
use clear_evmi_plugin.Args.Signs.{numeric-neg}
use clear_evmi_plugin.Number.{natural, digits_from, negated}
use clear_evmi_plugin.Postgres.{Decimal, Postgres, is_digit}
use clear_evmi_plugin.Kind.{
  ContractKind, unknown_kind, iou_kind, classify, kind_from_string, kind_token,
}
use clear_evmi_plugin.Kind.Names.{
  kind_from_string-kind_token, named_by, classify-unknown_iff, classify-to_lower,
}
use clear_evmi_plugin.Db.{Db, ValueRow, PatchRow, number, empty_db}
use clear_evmi_plugin.Balances.{
  Ledger, reserve_ledger, iou_ledger, curve_ledger, ensure_iou, adjust_balance, add_balance,
  touch_iou,
}
use clear_evmi_plugin.Event.{LogEvent}
use clear_evmi_plugin.Transfer.{
  handle_transfer, ensure_token_row, transfer_on, move, add_supply, mirror, resnapshot, bump_supply,
  query_or, reserve_of_iou, mirror_supply,
}
use clear_evmi_plugin.Transfer.Sums.{held, supply}
use clear_evmi_plugin.Table.Sums.{sum_where}
use clear_evmi_plugin.Transfer.Backed.{IsBacked}
use clear_evmi_plugin.Transfer.Supply.{handle_transfer-IsBacked}
use clear_evmi_plugin.Table.{Table, find, upsert, insert_new, modify}
use clear_evmi_plugin.Delivery.{
  new_log_event, deliver_all, transact, claim, handle_fresh, route, finish, commit, commit_by,
}
use clear_evmi_plugin.Registry.{resolve_kind, discover, remember_kind, persist_contract}
use clear_evmi_plugin.Delivery.Once.{
  IsAtomic, Unchanged, new_log_event-IsAtomic, new_log_event-processed,
}
use clear_evmi_plugin.Dispatch.{Setup, dispatch, select_case, iou_cases, cases_of}
use clear_evmi_plugin.Dispatch.Run.{deliver_all-IsBacked, deliver_all_once}
use clear_evmi_plugin.Exec.{◌>>=◌, ◌>>◌, statement, write, select, numeric_arg, World}
use clear_evmi_plugin.Rpc.{ReceiptLog}
use clear_evmi_plugin.Curve.Resolve.{is_candidate, is_constructor, pick}
use clear_evmi_plugin.Curve.Resolve.Last.{Holds, Emitted, pick-last}
use clear_evmi_plugin.Valuation.{ParValue, value_by_par}
use clear_evmi_plugin.Snapshot.{day_of, put_value}
use clear_evmi_plugin.Snapshot.Daily.{point, put_value-later}
use clear_evmi_plugin.Patch.{set_cells, patch_row}
use clear_evmi_plugin.Patch.Latest.{cell_of, listed_last, patch_row-cell}
use clear_evmi_plugin.Exec.Ensures.{Keeps}

-- A server that reads digits behind an optional minus sign.
abbrev read_integer : Text → Option ℤ
unfolding natural digits_from
read_integer [] = none
read_integer (c ∷ s) =
    if nat_eq c b'-' then Option.map negated (natural s) else Option.map pos (natural (c ∷ s))

abbrev magnitude : ℤ → ℕ
magnitude (pos n) = n
magnitude (negsuc n) = suc n

-- For a view of amounts that are not negative.
abbrev quotient : Decimal → Decimal → Decimal
quotient a b = record {
  mantissa = pos ((magnitude a.mantissa * 10 ^ b.scale) / (magnitude b.mantissa * 10 ^ a.scale));
  scale = 0;
}

negated_minus : (n : ℕ) → negated n ≡ pos 0 -ℤ pos n
negated_minus zero = omega int_laws
negated_minus (suc n) = omega int_laws

digits_negated :
    (o : Option ℕ) (a : ℤ) → Option.map pos o ≡ some a → Option.map negated o ≡ some (pos 0 -ℤ a)
digits_negated none a h = cc
digits_negated (some n) a h = let e : pos n ≡ a = cc in rw (sym e, negated_minus n) refl

negated_digits :
    (o : Option ℕ) (b : ℤ) → Option.map negated o ≡ some b → Option.map pos o ≡ some (pos 0 -ℤ b)
negated_digits none b h = cc
negated_digits (some n) b h =
    let e : negated n ≡ b = cc in
    let f : pos n ≡ pos 0 -ℤ b = rw (sym e, negated_minus n) (omega int_laws) in ap some f

not_minus : (c : ℕ) → is_digit c ≡ true → nat_eq c b'-' ≡ false
not_minus c h = ground arith

read_signed :
    (c : ℕ) (s : Text) (a : ℤ)
    → is_digit c ≡ true
    → read_integer (c ∷ s) ≡ some a
    → read_integer (b'-' ∷ c ∷ s) ≡ some (pos 0 -ℤ a)
unfolding read_integer
read_signed c s a d h = digits_negated (natural (c ∷ s)) a (rw (not_minus c d) at h)

minus_unread : (s : Text) → natural (b'-' ∷ s) ≡ none
unfolding natural digits_from
minus_unread s = refl

read_unsigned :
    (s : Text) (b : ℤ) → read_integer (b'-' ∷ s) ≡ some b → read_integer s ≡ some (pos 0 -ℤ b)
unfolding read_integer
read_unsigned [] b h = nothing h
  where
    nothing : Option.map negated (natural []) ≡ some b → ◌≡◌ {A = Option ℤ} none (some (pos 0 -ℤ b))
    nothing h = cc
read_unsigned (c ∷ s) b h = elim (Bool-cases (nat_eq c b'-')) [
  | inl minus ↦
      let e : c ≡ b'-' = ==-eq c b'-' minus in
      cc (h, minus_unread s, ap (λ (d : ℕ). natural (d ∷ s)) e)
  | inr plain ↦ rw plain (negated_digits (natural (c ∷ s)) b h)
]

read_zero : read_integer zero_text ≡ some (pos 0)
unfolding zero_text text natural digits_from
read_zero = refl

abbrev server : Postgres
unfolding read_integer
server = record {
  numeric = read_integer;
  trunc_div = quotient;
  numeric_zero = read_zero;
  numeric_empty = refl;
  numeric_signed = read_signed;
  numeric_unsigned = read_unsigned;
}

abbrev setup : Setup
setup = record {
  pg = server;
  rpc = none;
  indexing = record { host = none; index_curve_pools = false; curve_pool_abi = [] };
}

abbrev start : World
start = record {
  db = empty_db;
  catalog = record { tables = []; indexes = []; views = [] };
  registry = [];
  outcomes = [];
  aborted = false;
  curve_abi_id = 0;
  sources = [];
}

-- A Transfer of 500 of the IOU 0xAA: minted to 0x1, then moved to 0x2.
abbrev transfer_of : String → String → String → LogEvent
transfer_of id from to = record {
  id = id;
  chain_id = 1;
  source_id = 7;
  contract_name = text "ClearIOU";
  address = text "0xAA";
  event_name = "Transfer";
  args = ("from", text from) ∷ ("to", text to) ∷ ("value", text "500") ∷ [];
  block_number = 10;
  block_timestamp = 86400;
  log_index = 0;
  transaction_hash = text "0xf";
}

abbrev mint : LogEvent
mint = transfer_of "mint" "0x0000000000000000000000000000000000000000" "0x1"

abbrev moved : LogEvent
moved = transfer_of "move" "0x1" "0x2"

empty-IsBacked : IsBacked empty_db
unfolding find sum_where
empty-IsBacked = record { at = at }
  where
    at : (b : Ledger) (c : ℕ) (owner : Text) → held b c owner empty_db ≡ supply b c owner empty_db
    at reserve_ledger c owner = refl
    at iou_ledger c owner = refl
    at curve_ledger c owner = refl

deliver_all-IsBacked_example :
    IsBacked (deliver_all (dispatch setup) (mint ∷ moved ∷ mint ∷ []) start).db
deliver_all-IsBacked_example =
    deliver_all-IsBacked setup (mint ∷ moved ∷ mint ∷ []) start empty-IsBacked

handle_transfer-IsBacked_example : Keeps IsBacked (handle_transfer server mint iou_kind)
handle_transfer-IsBacked_example = handle_transfer-IsBacked server mint iou_kind

new_log_event-IsAtomic_example :
    IsAtomic (dispatch setup) mint start (new_log_event (dispatch setup) mint start).1.db
new_log_event-IsAtomic_example = new_log_event-IsAtomic (dispatch setup) mint start

abbrev seen : World
seen = record start { db = record empty_db { processed_events = ("mint", 1) ∷ [] } }

new_log_event-processed_example :
    Unchanged (dispatch setup) seen (new_log_event (dispatch setup) mint seen).1
unfolding find
new_log_event-processed_example = new_log_event-processed (dispatch setup) mint seen refl

numeric-neg_example : read_integer (neg (text "42")) ≡ some (negsuc 41)
unfolding text natural digits_from ◌-ℤ◌
numeric-neg_example = numeric-neg server (text "42") (pos 42) refl refl

norm_addr_idem_example :
    (norm_addr (norm_addr (text " 0xAb")) ≡ norm_addr (text " 0xAb"))
    × (norm_addr (to_lower (text " 0xAb")) ≡ norm_addr (text " 0xAb"))
    × (norm_addr (trim_space (text " 0xAb")) ≡ norm_addr (text " 0xAb"))
norm_addr_idem_example = norm_addr_idem (text " 0xAb")

kind_from_string-kind_token_example :
    kind_from_string (text " Curve_Factory ") ≡ ContractKind.curve_factory_kind
unfolding to_lower trim_space text kind_token
kind_from_string-kind_token_example =
    kind_from_string-kind_token ContractKind.curve_factory_kind (text " Curve_Factory ") refl

classify-unknown_iff_example :
    (classify (text "PairFactory") ≡ unknown_kind) ↔ (named_by (text "PairFactory") ≡ false)
classify-unknown_iff_example = classify-unknown_iff (text "PairFactory")

classify-to_lower_example : classify (to_lower (text "ClearIOU")) ≡ classify (text "ClearIOU")
classify-to_lower_example = classify-to_lower (text "ClearIOU")

deliver_all_once_example :
    let now =
      deliver_all (dispatch setup) (moved ∷ []) (new_log_event (dispatch setup) mint start).1 in
    Unchanged (dispatch setup) now (new_log_event (dispatch setup) mint now).1
unfolding new_log_event transact claim handle_fresh resolve_kind discover route dispatch select_case
    iou_cases cases_of handle_transfer finish ◌>>=◌ statement find ◌>>◌ remember_kind classify
    contains to_lower text persist_contract write first_arg arg ensure_token_row ensure_iou
    transfer_on move adjust_balance add_supply mirror resnapshot numeric_arg add_balance upsert
    insert_new modify norm_addr is_zero_addr zero_address bump_supply select query_or reserve_of_iou
    mirror_supply commit commit_by neg trim_space read_integer natural digits_from kind_token
    touch_iou has_prefix
deliver_all_once_example = deliver_all_once setup mint start (moved ∷ []) refl

abbrev one_unit : ParValue
one_unit = record {
  kind = text "base";
  lp_supply = pos 1;
  gross_assets = record { mantissa = pos 1; scale = 0 };
  iou_debt = record { mantissa = pos 0; scale = 0 };
  nav = record { mantissa = pos 1; scale = 0 };
  avg_redemption = none;
}

-- The history has a point of the day from block 12, later than the event's block 10.
abbrev later_point : Db
later_point = record empty_db {
  reserve_value_history =
      (
        (1, text "0xr", 1),
        record {
          block_number = 12;
          block_timestamp = 86500;
          total_assets = record { mantissa = pos 2; scale = 0 };
          iou_debt = record { mantissa = pos 0; scale = 0 };
          nav = record { mantissa = pos 2; scale = 0 };
          total_supply = pos 2;
        },
      )
      ∷ [];
}

abbrev one_unit_value : ValueRow
one_unit_value = value_by_par server later_point 1 (text "0xr") 10 86400 one_unit

put_value-later_example :
    (point 1 (text "0xr") (day_of 86400) later_point ≡ none
      → point 1
          (text "0xr")
          (day_of 86400)
          (put_value server mint (text "0xr") later_point (some one_unit))
        ≡ some one_unit_value)
    × ((old : ValueRow)
        → point 1 (text "0xr") (day_of 86400) later_point ≡ some old
        → (old.block_number ≤ 10
            → point 1
                (text "0xr")
                (day_of 86400)
                (put_value server mint (text "0xr") later_point (some one_unit))
              ≡ some one_unit_value)
          × (10 < old.block_number
              → point 1
                  (text "0xr")
                  (day_of 86400)
                  (put_value server mint (text "0xr") later_point (some one_unit))
                ≡ some old))
put_value-later_example = put_value-later server mint (text "0xr") later_point one_unit

abbrev settings : Table (ℕ × Text) PatchRow
settings =
    (
      (1, text "0xr"),
      record { kind = text "base"; cells = (text "fee", number (pos 5)) ∷ []; last_block = 3 },
    )
    ∷ []

abbrev settings_key : ℕ × Text
settings_key = (1, text "0xr")

patch_row-cell_example :
    cell_of
      (text "fee")
      settings_key
      (patch_row settings_key (text "base") ((text "spread", number (pos 7)) ∷ []) 9 settings)
    ≡ (if settings_key == settings_key
        then or_else
            (listed_last (text "fee") ((text "spread", number (pos 7)) ∷ []))
            (cell_of (text "fee") settings_key settings)
        else cell_of (text "fee") settings_key settings)
patch_row-cell_example =
    patch_row-cell settings_key settings_key (text "base") ((text "spread", number (pos 7)) ∷ []) 9
      settings (text "fee")

-- A receipt with the constructors of two pools, before a deployment event at index 9.
abbrev constructed : String → ℕ → ReceiptLog
constructed address index = record {
  index = index;
  address = text address;
  transfer = some (record {
    from = text "0x0000000000000000000000000000000000000000";
    to = text "0xfa";
    value = 0;
  });
}

abbrev receipt : List ReceiptLog
receipt = constructed "0xa" 5 ∷ constructed "0xb" 3 ∷ []

receipt-Emitted : Emitted receipt
unfolding zero_address text
receipt-Emitted _ (Holds.here _) = refl
receipt-Emitted _ (Holds.there _ _ (Holds.here _)) = refl
receipt-Emitted _ (Holds.there _ _ (Holds.there _ _ none_left)) = elim none_left [ ]

pick-last_example :
    (m : ReceiptLog) × (Holds m receipt
      × ((is_candidate (text "0xfa") 9 m ≡ true)
          × ((pick (text "0xfa") 9 (zero_address, 0) receipt ≡ (m.address, m.index))
              × (3 ≤ m.index))))
unfolding is_candidate is_constructor zero_address text
pick-last_example =
    pick-last (text "0xfa") 9 (constructed "0xb" 3) receipt receipt-Emitted
      (Holds.there (constructed "0xa" 5) (constructed "0xb" 3 ∷ []) (Holds.here [])) refl
