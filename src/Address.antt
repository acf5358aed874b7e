-- ===== src/Address.antt =====
-- `zeroAddress`, `normAddr` and `isZeroAddr` of db.go: addresses as stable keys.
use clear_evmi_plugin.Prelude.{◌≡◌, Bool, ◌==◌, nat_equality, list_equality, ap}
use clear_evmi_plugin.Text.{Text, text, to_lower, trim_space}
use clear_evmi_plugin.Text.Laws.{to_lower_idem, trim_space_idem, trim_space-to_lower}

unfoldable pub zero_address : Text
unfolding text
zero_address = text "0x0000000000000000000000000000000000000000"

unfoldable pub norm_addr : Text → Text
norm_addr a = to_lower (trim_space a)

unfoldable pub is_zero_addr : Text → Bool
unfolding norm_addr
is_zero_addr a = norm_addr a == zero_address

-- An address that is stored normalised is found under any spelling of it, however often it has been
-- normalised: normalising twice is normalising once, and neither letter case nor surrounding space
-- of the argument shows in the result.
pub norm_addr_idem :
    (a : Text)
    → (norm_addr (norm_addr a) ≡ norm_addr a)
      × (norm_addr (to_lower a) ≡ norm_addr a)
      × (norm_addr (trim_space a) ≡ norm_addr a)
unfolding norm_addr
norm_addr_idem a = (
  rw (trim_space-to_lower (trim_space a), trim_space_idem a) (to_lower_idem (trim_space a)),
  rw (trim_space-to_lower a) (to_lower_idem (trim_space a)),
  rw (trim_space_idem a),
)

pub is_zero_addr-norm_addr : (a : Text) → is_zero_addr (norm_addr a) ≡ is_zero_addr a
unfolding is_zero_addr
is_zero_addr-norm_addr a = ap (λ (t : Text). t == zero_address) (norm_addr_idem a).0
