-- ===== src/ArrayArg/Tests.antt =====
-- Runs of `split_array_arg` on both renderings.
use clear_evmi_plugin.Prelude.{◌≡◌, refl, [], ◌∷◌}
use clear_evmi_plugin.Text.{text}
use clear_evmi_plugin.ArrayArg.{split_array_arg, elements, not_array}

test_json :
    split_array_arg (text "[\"1\", 2 ,[3, 4],null]")
    ≡ elements (text "1" ∷ text "2" ∷ text "[3, 4]" ∷ [] ∷ [])
unfolding split_array_arg text
test_json = refl

test_sprint :
    split_array_arg (text " [0xAb 2  3]") ≡ elements (text "0xAb" ∷ text "2" ∷ text "3" ∷ [])
unfolding split_array_arg text
test_sprint = refl

test_big :
    split_array_arg
      (text "[115792089237316195423570985008687907853269984665640564039457584007913129639935,2]")
    ≡ elements (
        text "115792089237316195423570985008687907853269984665640564039457584007913129639935"
        ∷ text "2"
        ∷ [])
unfolding split_array_arg text
test_big = refl

test_emp : split_array_arg (text "[]") ≡ elements []
unfolding split_array_arg text
test_emp = refl

test_no : split_array_arg (text "not-an-array") ≡ not_array
unfolding split_array_arg text
test_no = refl
