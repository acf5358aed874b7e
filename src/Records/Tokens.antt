-- ===== src/Records/Tokens.antt =====
-- What is known of a token stays known.
use clear_evmi_plugin.Prelude.{
  ℕ, ◌≡◌, refl, ◌∙◌, Option, none, some, or_else, ◌==◌, ==-eq, inl, inr, Bool-cases, nat_equality,
  list_equality, pair_equality,
}
use clear_evmi_plugin.Text.{Text}
use clear_evmi_plugin.Table.{Table, find, insert_new, modify}
use clear_evmi_plugin.Table.Laws.{find-insert_new, find-modify}
use clear_evmi_plugin.Db.{TokenRow}
use clear_evmi_plugin.Token.{TokenMeta, patch_token}

-- A column that has a value has it still.
abbrev pub Stays : {A : Type 0} → Option A → Option A → Type 0
Stays {A} o o' = (a : A) → o ≡ some a → o' ≡ some a

-- The second row knows what the first knows, and was seen first at the same block.
pub record KnowsAll (row row' : TokenRow) : Type 0 where
  pub name : Stays row.name row'.name
  pub symbol : Stays row.symbol row'.symbol
  pub decimals : Stays row.decimals row'.decimals
  pub first_block : row'.first_block ≡ row.first_block

abbrev pub KnowsTokens : Table (ℕ × Text) TokenRow → Table (ℕ × Text) TokenRow → Type 0
KnowsTokens t t' =
    (k : ℕ × Text) (row : TokenRow)
    → find k t ≡ some row
    → (row' : TokenRow) × ((find k t' ≡ some row') × KnowsAll row row')

KnowsAll-refl : (row : TokenRow) → KnowsAll row row
KnowsAll-refl row = record {
  name = λ a h. h;
  symbol = λ a h. h;
  decimals = λ a h. h;
  first_block = refl;
}

pub KnowsTokens-refl : (t : Table (ℕ × Text) TokenRow) → KnowsTokens t t
KnowsTokens-refl t k row h = (row, (h, KnowsAll-refl row))

KnowsAll-trans : {a b c : TokenRow} → KnowsAll a b → KnowsAll b c → KnowsAll a c
KnowsAll-trans p q = record {
  name = λ a h. q.name a (p.name a h);
  symbol = λ a h. q.symbol a (p.symbol a h);
  decimals = λ a h. q.decimals a (p.decimals a h);
  first_block = q.first_block ∙ p.first_block;
}

pub KnowsTokens-trans :
    (t t' t'' : Table (ℕ × Text) TokenRow)
    → KnowsTokens t t'
    → KnowsTokens t' t''
    → KnowsTokens t t''
KnowsTokens-trans t t' t'' p q k row h =
    let (row', (h', knows)) = p k row h in
    let (row'', (h'', knows')) = q k row' h' in (row'', (h'', KnowsAll-trans knows knows'))

or_else-Stays : {A : Type 0} (o o' : Option A) → Stays o (or_else o o')
or_else-Stays none o' a h = cc
or_else-Stays (some b) o' a h = h

patch_token-KnowsAll : (m : TokenMeta) (row : TokenRow) → KnowsAll row (patch_token m row)
unfolding patch_token
patch_token-KnowsAll m row = record {
  name = or_else-Stays row.name _;
  symbol = or_else-Stays row.symbol _;
  decimals = or_else-Stays row.decimals _;
  first_block = refl;
}

pub insert_new-KnowsTokens :
    (k : ℕ × Text) (v : TokenRow) (t : Table (ℕ × Text) TokenRow) → KnowsTokens t (insert_new k v t)
insert_new-KnowsTokens k v t j row h = (
  row,
  (
    rw (find-insert_new k j v t) (elim (Bool-cases (k == j)) [
      | inl met ↦ rw (met, ==-eq k j met, h)
      | inr other ↦ rw (other, h)
    ]),
    KnowsAll-refl row,
  ),
)

pub modify-KnowsTokens :
    (k : ℕ × Text) (m : TokenMeta) (t : Table (ℕ × Text) TokenRow)
    → KnowsTokens t (modify k (patch_token m) t)
modify-KnowsTokens k m t j row h = elim (Bool-cases (k == j)) [
  | inl met ↦ (
    patch_token m row,
    (rw (find-modify k j (patch_token m) t, met, h), patch_token-KnowsAll m row),
  )
  | inr other ↦ (row, (rw (find-modify k j (patch_token m) t, other, h), KnowsAll-refl row))
]
