-- ===== src/Quiet/Transfers.antt =====
-- What a Transfer keeps: a condition that quiet calls keep, and the writes of balances and supplies.
-- So it leaves the ledger of processed events alone, and loses nothing of what is written once and
-- for all.
use clear_evmi_plugin.Prelude.{ℕ, String, ◌≡◌, ◌∙◌, [], ◌∷◌, Option, none, some}
use clear_evmi_plugin.Text.{Text}
use clear_evmi_plugin.Address.{norm_addr, is_zero_addr}
use clear_evmi_plugin.Args.{first_arg, is_empty, neg}
use clear_evmi_plugin.Kind.{ContractKind}
use clear_evmi_plugin.Prelude.Int.{ℤ}
use clear_evmi_plugin.Postgres.{Postgres}
use clear_evmi_plugin.Table.{Table}
use clear_evmi_plugin.Db.{Db}
use clear_evmi_plugin.Event.{LogEvent}
use clear_evmi_plugin.Balances.{
  Ledger, reserve_ledger, iou_ledger, curve_ledger, adjust_balance, with_balances, Balances,
}
use clear_evmi_plugin.Transfer.{
  ensure_token_row, bump_supply, mirror_supply, add_supply, mirror, resnapshot, reserve_of_iou,
  move, transfer_on, ledger_of, handle_transfer,
}
use clear_evmi_plugin.Transfer.Supply.{query_or-Keeps}
use clear_evmi_plugin.Exec.{Exec, numeric_arg, ◌>>=◌, ◌>>◌}
use clear_evmi_plugin.Exec.Ensures.{
  Keeps, Ensures-pure, Ensures-write, Ensures-bind, Ensures-then, Ensures-if,
}
use clear_evmi_plugin.Records.{kept, Extends, KeptIn-trans, assets-KeptIn}
use clear_evmi_plugin.Records.Positions.{mirror_supply-IsNumbered}
use clear_evmi_plugin.Quiet.{Quietly, IsQuiet}
use clear_evmi_plugin.Quiet.Rules.{IsQuiet-Keeps, numeric_arg-IsQuiet}
use clear_evmi_plugin.Quiet.Shared.{
  ensure_reserve-IsQuiet, ensure_iou-IsQuiet, ensure_curve-IsQuiet, snapshot_reserve_value-IsQuiet,
}

module _ (P : Db → Type 0) (respects : (d d' : Db) → Quietly d d' → P d → P d')
    (supplies : (b : Ledger) (c : ℕ) (owner : Text) (n : ℤ) (block : ℕ) (d : Db)
      → P d
      → P (bump_supply b c owner n block d))
    (mirrors : (c : ℕ) (iou : Text) (n : ℤ) (d : Db)
      → P d
      → P (record d { reserve_assets = mirror_supply c iou n d.reserve_assets })) where
  of_quiet : {A : Type 0} (m : Exec A) → IsQuiet m → Keeps P m
  of_quiet m q = IsQuiet-Keeps P respects m q

  module _ (pg : Postgres) (log : LogEvent) where
    with_number :
        (v : Text) (f : ℤ → Exec (Unit {0}))
        → ((n : ℤ) → Keeps P (f n))
        → Keeps P (numeric_arg pg v >>= f)
    with_number v f h =
        Ensures-bind (numeric_arg pg v) f (λ _. P) (λ _. P)
          (of_quiet (numeric_arg pg v) (numeric_arg-IsQuiet pg v)) h

    then_both : (m n : Exec (Unit {0})) → Keeps P m → Keeps P n → Keeps P (m >> n)
    then_both m n h k = Ensures-then m n P (λ _. P) h k

    mirror-Keeps : (b : Ledger) (owner : Text) (n : ℤ) → Keeps P (mirror b log.chain_id owner n)
    unfolding mirror
    mirror-Keeps iou_ledger owner n = Ensures-write _ (mirrors log.chain_id owner n)
    mirror-Keeps reserve_ledger owner n = Ensures-pure tt (λ _. P) (λ d p. p)
    mirror-Keeps curve_ledger owner n = Ensures-pure tt (λ _. P) (λ d p. p)

    pub add_supply-Keeps :
        (b : Ledger) (owner v : Text)
        → Keeps P (add_supply pg b log.chain_id owner v log.block_number)
    unfolding add_supply
    add_supply-Keeps b owner v = with_number v _ λ n.
        then_both _ _ (Ensures-write _ (supplies b log.chain_id owner n log.block_number))
          (mirror-Keeps b owner n)

    pub resnapshot-Keeps : (b : Ledger) (owner : Text) → Keeps P (resnapshot pg log b owner)
    unfolding resnapshot
    resnapshot-Keeps iou_ledger owner =
        Ensures-bind _ _ (λ _. P) (λ _. P)
          (query_or-Keeps [] (λ d. reserve_of_iou log.chain_id owner d.reserve_assets) P)
          λ reserve.
            Ensures-if (is_empty reserve) _ _ (λ _. Ensures-pure tt (λ _. P) (λ d p. p))
              (λ _. of_quiet _ (snapshot_reserve_value-IsQuiet pg log reserve))
    resnapshot-Keeps reserve_ledger owner = Ensures-pure tt (λ _. P) (λ d p. p)
    resnapshot-Keeps curve_ledger owner = Ensures-pure tt (λ _. P) (λ d p. p)

    pub ensure_token_row-IsQuiet :
        (b : Ledger) (owner : Text) (k : ContractKind) (block : ℕ)
        → IsQuiet (ensure_token_row b log.chain_id owner k block)
    unfolding ensure_token_row
    ensure_token_row-IsQuiet reserve_ledger owner k block = ensure_reserve-IsQuiet _ owner block _
    ensure_token_row-IsQuiet iou_ledger owner k block = ensure_iou-IsQuiet _ owner block
    ensure_token_row-IsQuiet curve_ledger owner k block = ensure_curve-IsQuiet _ owner block

    module _ (balances : (b : Ledger) (u : Balances) (d : Db) → P d → P (with_balances b u d)) where
      adjust_balance-Keeps :
          (b : Ledger) (owner h v : Text)
          → Keeps P (adjust_balance pg log.chain_id b owner h v log.block_number)
      unfolding adjust_balance
      adjust_balance-Keeps b owner h v =
          with_number v _ (λ n. Ensures-write _ (λ d. balances b _ d))

      supply_change-Keeps :
          (b : Ledger) (owner h v : Text)
          → Keeps P (
              adjust_balance pg log.chain_id b owner h v log.block_number
              >> (add_supply pg b log.chain_id owner v log.block_number
                  >> resnapshot pg log b owner))
      supply_change-Keeps b owner h v =
          then_both _ _ (adjust_balance-Keeps b owner h v)
            (then_both _ _ (add_supply-Keeps b owner v) (resnapshot-Keeps b owner))

      move-Keeps : (b : Ledger) (owner from to v : Text) → Keeps P (move pg log b owner from to v)
      unfolding move
      move-Keeps b owner from to v =
          Ensures-if (is_zero_addr from) _ _ (λ _. supply_change-Keeps b owner to v)
            (λ _.
              Ensures-if (is_zero_addr to) _ _ (λ _. supply_change-Keeps b owner from (neg v))
                (λ _.
                  then_both _ _ (adjust_balance-Keeps b owner from (neg v))
                    (adjust_balance-Keeps b owner to v)))

      transfer_on-Keeps :
          (o : Option Ledger) (k : ContractKind) (from to v : Text)
          → Keeps P (transfer_on pg log o k from to v)
      unfolding transfer_on
      transfer_on-Keeps none k from to v = Ensures-pure tt (λ _. P) (λ d p. p)
      transfer_on-Keeps (some b) k from to v =
          then_both _ _
            (of_quiet _ (ensure_token_row-IsQuiet b (norm_addr log.address) k log.block_number))
            (move-Keeps b (norm_addr log.address) from to v)

      pub handle_transfer-Keeps : (k : ContractKind) → Keeps P (handle_transfer pg log k)
      unfolding handle_transfer
      handle_transfer-Keeps k =
          Ensures-if (is_empty (first_arg log.args ("value" ∷ []))) _ _
            (λ _. Ensures-pure tt (λ _. P) (λ d p. p))
            (λ _.
              transfer_on-Keeps (ledger_of k) k
                (norm_addr (first_arg log.args ("from" ∷ "sender" ∷ [])))
                (norm_addr (first_arg log.args ("to" ∷ "receiver" ∷ [])))
                (first_arg log.args ("value" ∷ [])))

-- The ledger of processed events stays as it is.
module _ (t : Table String ℕ) where
  abbrev pub IsProcessed : Db → Type 0
  IsProcessed d = d.processed_events ≡ t

  pub Quietly-IsProcessed : (d d' : Db) → Quietly d d' → IsProcessed d → IsProcessed d'
  Quietly-IsProcessed d d' s p = s.amounts.processed ∙ p

  pub handle_transfer-IsProcessed :
      (pg : Postgres) (log : LogEvent) (k : ContractKind)
      → Keeps IsProcessed (handle_transfer pg log k)
  unfolding bump_supply
  handle_transfer-IsProcessed pg log k =
      handle_transfer-Keeps IsProcessed Quietly-IsProcessed supplies (λ c iou n d p. p) pg log
        balances k
    where
      balances :
          (b : Ledger) (u : Balances) (d : Db) → IsProcessed d → IsProcessed (with_balances b u d)
      balances reserve_ledger u d p = p
      balances iou_ledger u d p = p
      balances curve_ledger u d p = p

      supplies :
          (b : Ledger) (c : ℕ) (owner : Text) (n : ℤ) (block : ℕ) (d : Db)
          → IsProcessed d
          → IsProcessed (bump_supply b c owner n block d)
      supplies reserve_ledger c owner n block d p = p
      supplies iou_ledger c owner n block d p = p
      supplies curve_ledger c owner n block d p = p

-- Nothing of what the given tables say once and for all is lost.
module _ (d₀ : Db) where
  abbrev pub HasKept : Db → Type 0
  HasKept d = Extends d₀ d

  pub Quietly-HasKept : (d d' : Db) → Quietly d d' → HasKept d → HasKept d'
  Quietly-HasKept d d' s p = KeptIn-trans p s.extends

  pub handle_transfer-HasKept :
      (pg : Postgres) (log : LogEvent) (k : ContractKind) → Keeps HasKept (handle_transfer pg log k)
  unfolding bump_supply
  handle_transfer-HasKept pg log k =
      handle_transfer-Keeps HasKept Quietly-HasKept supplies mirrors pg log balances k
    where
      balances : (b : Ledger) (u : Balances) (d : Db) → HasKept d → HasKept (with_balances b u d)
      balances reserve_ledger u d p = p
      balances iou_ledger u d p = p
      balances curve_ledger u d p = p

      supplies :
          (b : Ledger) (c : ℕ) (owner : Text) (n : ℤ) (block : ℕ) (d : Db)
          → HasKept d
          → HasKept (bump_supply b c owner n block d)
      supplies reserve_ledger c owner n block d p = p
      supplies iou_ledger c owner n block d p = p
      supplies curve_ledger c owner n block d p = p

      mirrors :
          (c : ℕ) (iou : Text) (n : ℤ) (d : Db)
          → HasKept d
          → HasKept (record d { reserve_assets = mirror_supply c iou n d.reserve_assets })
      mirrors c iou n d p = KeptIn-trans p (
          assets-KeptIn (kept d) _ (λ i r. mirror_supply-IsNumbered c iou n i r 0 d.reserve_assets))
