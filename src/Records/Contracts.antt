-- ===== src/Records/Contracts.antt =====
-- The table of contracts has one row for each chain and address, the address in its normal form.
use clear_evmi_plugin.Prelude.{
  ℕ, ◌≡◌, refl, Bool, true, false, [], ◌∷◌, ◌==◌, ==-differ_sym, nat_equality, list_equality,
  pair_equality, if◌then◌else◌,
}
use clear_evmi_plugin.Text.{Text}
use clear_evmi_plugin.Address.{norm_addr}
use clear_evmi_plugin.Table.{Table, find, upsert, insert_new}
use clear_evmi_plugin.Table.Column.{is_present, upsert-present}
use clear_evmi_plugin.Db.{ContractRow}

abbrev pub Contracts : Type 0
Contracts = Table (ℕ × Text) ContractRow

abbrev pub IsKeyed : Contracts → Type 0
IsKeyed [] = Unit {0}
IsKeyed (((i, addr), row) ∷ t) =
    (norm_addr addr ≡ addr) × ((is_present (i, addr) t ≡ false) × IsKeyed t)

abbrev is_key : ℕ × Text → ℕ × Text → Bool
is_key a b = a == b

module _ (c : ℕ) (addr : Text) (v : ContractRow) (f : ContractRow → ContractRow)
    (normal : norm_addr addr ≡ addr) where
  pub upsert-IsKeyed : (t : Contracts) → IsKeyed t → IsKeyed (upsert (c, addr) v f t)
  unfolding upsert find
  upsert-IsKeyed [] h = (normal, (refl, tt))
  upsert-IsKeyed (((i, other), row) ∷ t) h =
      by_key (is_key (i, other) (c, addr)) refl (upsert-IsKeyed t h.1.1)
    where
      absent :
          is_key (i, other) (c, addr) ≡ false
          → is_present (i, other) (upsert (c, addr) v f t) ≡ false
      absent e =
          rw
            (
              upsert-present (c, addr) (i, other) v f t,
              ==-differ_sym {A = ℕ × Text} (i, other) (c, addr) e,
            )
            h.1.0

      by_key :
          (met : Bool)
          → is_key (i, other) (c, addr) ≡ met
          → IsKeyed (upsert (c, addr) v f t)
          → IsKeyed
              (if met then ((i, other), f row) ∷ t else ((i, other), row) ∷ upsert (c, addr) v f t)
      by_key true e rest = h
      by_key false e rest = (h.0, (absent e, rest))

pub insert_new-IsKeyed :
    (c : ℕ) (addr : Text) (v : ContractRow) (t : Contracts)
    → norm_addr addr ≡ addr
    → IsKeyed t
    → IsKeyed (insert_new (c, addr) v t)
unfolding insert_new
insert_new-IsKeyed c addr v t normal h = upsert-IsKeyed c addr v (λ w. w) normal t h
