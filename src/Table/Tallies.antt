-- ===== src/Table/Tallies.antt =====
-- A counter in the rows of one table that tallies the rows of another: what the three statements of a
-- handler do to it, which make sure of the counter's row, insert a row, and count it.
use clear_evmi_plugin.Prelude.{
  ℕ, String, ◌+◌, ◌≡◌, Bool, true, false, [], ◌∷◌, Option, none, some, Equality, ◌==◌, arith,
  string_equality, ==-refl,
}
use mathlib.Core.Option
use clear_evmi_plugin.Table.{Table, find, upsert, insert_new, modify}
use clear_evmi_plugin.Table.Laws.{find-upsert, find-modify, upserted}
use clear_evmi_plugin.Table.Column.{is_present, is_some}

abbrev pub one_if : Bool → ℕ
one_if true = 1
one_if false = 0

module _ {V : Type 0} (mine : V → Bool) where
  unfoldable pub count_rows : Table String V → ℕ
  count_rows [] = 0
  count_rows ((k, v) ∷ t) = one_if (mine v) + count_rows t

  count_rows-insert_new :
      (k : String) (v : V) (t : Table String V)
      → find k t ≡ none
      → count_rows (insert_new k v t) ≡ count_rows t + one_if (mine v)
  unfolding count_rows insert_new upsert find
  count_rows-insert_new k v [] h = omega arith
  count_rows-insert_new k v ((j, w) ∷ t) h = ground (arith, count_rows-insert_new k v t)

module _ {R S : Type 0} {K : Type 0} ⦃e : Equality K⦄ (get : R → ℕ) (mine : K → S → Bool) where
  abbrev pub count_or_zero : Option R → ℕ
  count_or_zero none = 0
  count_or_zero (some row) = get row

  -- The counter of every key, 0 without a row, is the number of its rows in the other table.
  abbrev pub Tallies : Table K R → Table String S → Type 0
  Tallies t s = (j : K) → count_or_zero (find j t) ≡ count_rows (mine j) s

  -- The same, but for one row of `k` that is not counted yet.
  abbrev pub Owes : K → Table K R → Table String S → Type 0
  Owes k t s =
      (is_present k t ≡ true)
      × ((j : K) → count_or_zero (find j t) + one_if (k == j) ≡ count_rows (mine j) s)

  module _ (k : K) (t : Table K R) (s : Table String S) where
    upserted-count :
        (fresh : R) (f : R → R) (o : Option R)
        → get fresh ≡ 0
        → ((w : R) → get (f w) ≡ get w)
        → get (upserted fresh f o) ≡ count_or_zero o
    upserted-count fresh f none zeroed same = zeroed
    upserted-count fresh f (some w) zeroed same = same w

    modified-count :
        (f : R → R) (o : Option R)
        → ((w : R) → get (f w) ≡ get w + 1)
        → is_some o ≡ true
        → count_or_zero (Option.map f o) ≡ count_or_zero o + 1
    modified-count f none counted p = cc
    modified-count f (some w) counted p = counted w

    pub touch-Tallies :
        (fresh : R) (f : R → R)
        → get fresh ≡ 0
        → ((w : R) → get (f w) ≡ get w)
        → Tallies t s
        → Tallies (upsert k fresh f t) s × (is_present k (upsert k fresh f t) ≡ true)
    touch-Tallies fresh f zeroed same tallies = (
      λ j. ground (
        arith,
        find-upsert k j fresh f t,
        e.same_iff k j,
        upserted-count fresh f (find k t) zeroed same,
        upserted-count fresh f (find j t) zeroed same,
        tallies j,
      ),
      ground (arith, find-upsert k k fresh f t, ==-refl k),
    )

    pub insert-Owes :
        (id : String) (row : S)
        → ((j : K) → mine j row ≡ (k == j))
        → find id s ≡ none
        → Tallies t s
        → is_present k t ≡ true
        → Owes k t (insert_new id row s)
    insert-Owes id row own new tallies present = (
      present,
      λ j. ground (arith, count_rows-insert_new (mine j) id row s, own j, tallies j, new),
    )

    pub count-Tallies :
        (f : R → R) → ((w : R) → get (f w) ≡ get w + 1) → Owes k t s → Tallies (modify k f t) s
    count-Tallies f counted owes j = ground (
      arith,
      find-modify k j f t,
      e.same_iff k j,
      modified-count f (find j t) counted,
      owes.0,
      owes.1 j,
    )
