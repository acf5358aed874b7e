-- ===== src/Curve/Resolve.antt =====
-- `resolveDeployedPool` of curve.go: which log of a receipt announces the pool of a deployment.
pub mod Last
use clear_evmi_plugin.Prelude.{
  ℕ, Bool, ◌&&◌, ◌||◌, not, List, [], ◌∷◌, Option, none, some, ltb, leb, nat_eq, ◌==◌, nat_equality,
  list_equality, if◌then◌else◌,
}
use clear_evmi_plugin.Text.{Text}
use clear_evmi_plugin.Rpc.{Minted, ReceiptLog}
use clear_evmi_plugin.Address.{norm_addr, zero_address}

-- A mint of nothing to the factory.
unfoldable pub is_constructor : Text → Option Minted → Bool
is_constructor factory none = Bool.false
is_constructor factory (some t) = t.from == zero_address && (t.to == factory && nat_eq t.value 0)

-- A log before the deployment, from another contract than the factory, that a constructor emits.
unfoldable pub is_candidate : Text → ℕ → ReceiptLog → Bool
unfolding is_constructor
is_candidate factory deploy_index l =
    not (leb deploy_index l.index || l.address == factory) && is_constructor factory l.transfer

-- The pool and the index of the log that announced it; the zero address before any.
unfoldable pub pick : Text → ℕ → Text × ℕ → List ReceiptLog → Text × ℕ
unfolding is_candidate
pick factory deploy_index best [] = best
pick factory deploy_index best (l ∷ logs) =
    pick factory deploy_index
      (if is_candidate factory deploy_index l && (best.0 == zero_address || ltb best.1 l.index)
        then (l.address, l.index)
        else best)
      logs

unfoldable pub deployed_pool : Text → ℕ → List ReceiptLog → Text
unfolding pick
deployed_pool factory deploy_index logs =
    let pool = (pick factory deploy_index (zero_address, 0) logs).0 in
    if pool == zero_address then [] else norm_addr pool
