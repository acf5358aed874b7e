-- ===== src/Decimal.antt =====
-- Exact NUMERIC arithmetic, as the views of schema.go use it: sums, products, GREATEST and
-- `power(10, k)`. A value is `mantissa / 10 ^ scale`.
use clear_evmi_plugin.Prelude.{ℕ, ◌+◌, ◌-◌, ◌^◌, List, [], ◌∷◌, max, if◌then◌else◌}
use clear_evmi_plugin.Prelude.Int.{ℤ, pos, negsuc, ◌+ℤ◌, ◌-ℤ◌, ◌*ℤ◌, ltb_ℤ}
use clear_evmi_plugin.Postgres.{Decimal}

unfoldable pub of_int : ℤ → Decimal
of_int n = record { mantissa = n; scale = 0 }

-- The mantissa of the same value at a larger scale.
unfoldable pub at_scale : ℕ → Decimal → ℤ
at_scale s d = d.mantissa *ℤ pos (10 ^ (s - d.scale))

unfoldable pub add : Decimal → Decimal → Decimal
unfolding at_scale ◌+ℤ◌ ◌*ℤ◌
add a b =
    let s = max a.scale b.scale in record { mantissa = at_scale s a +ℤ at_scale s b; scale = s }

unfoldable pub subtract : Decimal → Decimal → Decimal
unfolding at_scale ◌-ℤ◌ ◌*ℤ◌
subtract a b =
    let s = max a.scale b.scale in record { mantissa = at_scale s a -ℤ at_scale s b; scale = s }

unfoldable pub multiply : Decimal → Decimal → Decimal
unfolding ◌*ℤ◌
multiply a b = record { mantissa = a.mantissa *ℤ b.mantissa; scale = a.scale + b.scale }

-- `GREATEST(a, 0)`
unfoldable pub at_least_zero : Decimal → Decimal
unfolding of_int
at_least_zero a = if ltb_ℤ a.mantissa (pos 0) then of_int (pos 0) else a

-- `power(10::numeric, k)`
unfoldable pub power_ten : ℤ → Decimal
power_ten (pos k) = record { mantissa = pos (10 ^ k); scale = 0 }
power_ten (negsuc k) = record { mantissa = pos 1; scale = k + 1 }

-- `COALESCE(sum(…), 0)`
unfoldable pub sum : List Decimal → Decimal
unfolding add of_int
sum [] = of_int (pos 0)
sum (d ∷ ds) = add d (sum ds)
