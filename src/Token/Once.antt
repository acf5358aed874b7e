-- ===== src/Token/Once.antt =====
-- `ensureToken` on a token that the directory lists.
use clear_evmi_plugin.Prelude.{
  ℕ, ◌≡◌, refl, ap, sym, subst, ◌∙◌, Bool, true, false, ◌&&◌, ◌||◌, not, Option, none, some,
  is_none, if◌then◌else◌, inl, inr, ◌⊎◌, nat_equality, list_equality, pair_equality,
}
use clear_evmi_plugin.Text.{Text}
use clear_evmi_plugin.Address.{norm_addr, is_zero_addr}
use clear_evmi_plugin.Args.{is_empty}
use clear_evmi_plugin.Rpc.{Rpc, TokenAnswers}
use clear_evmi_plugin.Table.{find, insert_new}
use clear_evmi_plugin.Table.Column.{is_present, is_some, upsert-present_self, modify-present}
use clear_evmi_plugin.Db.{Db}
use clear_evmi_plugin.Token.{
  TokenMeta, claim_token, meta_for, store_meta, register_token, ensure_token, is_empty_meta,
  is_complete, fetch_token_meta, read_answers,
}
use clear_evmi_plugin.Exec.{
  continue, World, Result, ok, Exec, raise, request_failed, pure, statement, refuse, is_served,
  next, later, ◌>>=◌,
}
use clear_evmi_plugin.Exec.Ensures.{
  Ensures, Ensures-pure, Ensures-raise, Ensures-write, Ensures-statement, Ensures-bind, Ensures-if,
  Ensures-weaken, Keeps, Claims,
}

-- A call that goes on from a statement, where what it goes on with is the same.
statement-then :
    {A B : Type 0} (q : Db → A × Db) (f g : A → Exec B) (w : World)
    → f (q w.db).0 ≡ g (q w.db).0
    → (statement q >>= f) w ≡ (statement q >>= g) w
unfolding ◌>>=◌ statement refuse
statement-then {A} {B} q f g w e = by_test (w.aborted || not (is_served (next w.outcomes)))
  where
    after : Result A × World → (A → Exec B) → Result B × World
    after p h = continue p.0 h p.1

    answer : Bool → Result A × World
    answer b =
        if b
        then refuse w
        else (ok (q w.db).0, record w { db = (q w.db).1; outcomes = later w.outcomes })

    by_test : (b : Bool) → after (answer b) f ≡ after (answer b) g
    by_test true = refl
    by_test false = ap (λ h. h (record w { db = (q w.db).1; outcomes = later w.outcomes })) e

meta_for-listed :
    (rpc : Option Rpc) (addr : Text) (hints : TokenMeta)
    → meta_for rpc addr false hints ≡ pure hints
unfolding meta_for
meta_for-listed none addr hints = refl
meta_for-listed (some rpc) addr hints = refl

meta_for-same :
    (rpc : Option Rpc) (addr : Text) (hints : TokenMeta) (created : Bool)
    → created ≡ false
    → meta_for rpc addr created hints ≡ meta_for none addr created hints
unfolding meta_for
meta_for-same rpc addr hints true h = cc
meta_for-same rpc addr hints false h = meta_for-listed rpc addr hints

present-found : {V : Type 0} (o : Option V) → is_some o ≡ true → is_none o ≡ false
present-found none h = cc
present-found (some v) h = refl

meta_for-Keeps :
    (P : Db → Type 0) (rpc : Option Rpc) (addr : Text) (created : Bool) (hints : TokenMeta)
    → Keeps P (meta_for rpc addr created hints)
unfolding meta_for fetch_token_meta
meta_for-Keeps P none addr created hints = Ensures-pure hints (λ _. P) (λ d p. p)
meta_for-Keeps P (some rpc) addr created hints =
    Ensures-if (created && not (is_complete hints)) _ _
      (λ _.
        Ensures-bind _ _ (λ _. P) (λ _. P) (by_answer (rpc.token_call addr))
          (λ m. Ensures-pure _ (λ _. P) (λ d p. p)))
      (λ _. Ensures-pure hints (λ _. P) (λ d p. p))
  where
    by_answer :
        (o : Option TokenAnswers)
        → Keeps {A = TokenMeta} P
            (elim o [ none ↦ raise request_failed | some a ↦ pure (read_answers a) ])
    by_answer none = Ensures-raise request_failed (λ _. P)
    by_answer (some a) = Ensures-pure (read_answers a) (λ _. P) (λ d p. p)

module _ (c : ℕ) (raw : Text) where
  -- The token is listed, or it is no token.
  abbrev pub IsSettled : Db → Type 0
  IsSettled d =
      ((is_empty (norm_addr raw) || is_zero_addr (norm_addr raw)) ≡ true)
      ⊎ (is_present (c, norm_addr raw) d.tokens ≡ true)

  register-same :
      (rpc : Option Rpc) (block : ℕ) (hints : TokenMeta) (w : World)
      → is_present (c, norm_addr raw) w.db.tokens ≡ true
      → register_token rpc c (norm_addr raw) block hints w
        ≡ register_token none c (norm_addr raw) block hints w
  unfolding register_token claim_token
  register-same rpc block hints w h = statement-then _ _ _ w (
      ap
        (λ m.
          m >>= λ x. store_meta c (norm_addr raw) (is_none (find (c, norm_addr raw) w.db.tokens)) x)
        (meta_for-same rpc (norm_addr raw) hints _
          (present-found (find (c, norm_addr raw) w.db.tokens) h)))

  -- What is asked of the endpoint does not matter.
  pub ensure_token-settled :
      (rpc : Option Rpc) (block : ℕ) (hints : TokenMeta) (w : World)
      → IsSettled w.db
      → ensure_token rpc c raw block hints w ≡ ensure_token none c raw block hints w
  unfolding ensure_token
  ensure_token-settled rpc block hints w (inl no_token) = rw no_token
  ensure_token-settled rpc block hints w (inr listed) =
      by_test (is_empty (norm_addr raw) || is_zero_addr (norm_addr raw))
    where
      by_test :
          (b : Bool)
          → (if b then pure tt else register_token rpc c (norm_addr raw) block hints) w
            ≡ (if b then pure tt else register_token none c (norm_addr raw) block hints) w
      by_test true = refl
      by_test false = register-same rpc block hints w listed

  store_meta-Keeps :
      (created : Bool) (m : TokenMeta)
      → Keeps
          (λ d. is_present (c, norm_addr raw) d.tokens ≡ true)
          (store_meta c (norm_addr raw) created m)
  unfolding store_meta
  store_meta-Keeps created m =
      Ensures-if (not created && is_empty_meta m) _ _ (λ _. Ensures-pure tt _ (λ d p. p))
        (λ _.
          Ensures-write _
            (λ d p. modify-present (c, norm_addr raw) (c, norm_addr raw) _ d.tokens ∙ p))

  register-IsSettled :
      (rpc : Option Rpc) (block : ℕ) (hints : TokenMeta)
      → Ensures
          (λ d. Unit {0})
          (register_token rpc c (norm_addr raw) block hints)
          (λ _ d. is_present (c, norm_addr raw) d.tokens ≡ true)
  unfolding register_token claim_token insert_new
  register-IsSettled rpc block hints =
      let Listed : Db → Type 0 = λ d. is_present (c, norm_addr raw) d.tokens ≡ true in
      Ensures-bind _ _ (λ _. Listed) (λ _. Listed)
        (Ensures-statement _ (λ _. Listed)
          (λ d p. upsert-present_self (c, norm_addr raw) _ (λ row. row) d.tokens))
        (λ created.
          Ensures-bind _ _ (λ _. Listed) (λ _. Listed)
            (meta_for-Keeps Listed rpc (norm_addr raw) created hints)
            (λ m. store_meta-Keeps created m))

  ensure_token-IsSettled :
      (rpc : Option Rpc) (block : ℕ) (hints : TokenMeta)
      → Ensures (λ d. Unit {0}) (ensure_token rpc c raw block hints) (λ _. IsSettled)
  unfolding ensure_token
  ensure_token-IsSettled rpc block hints =
      Ensures-if (is_empty (norm_addr raw) || is_zero_addr (norm_addr raw)) _ _
        (λ no_token. Ensures-pure tt (λ _. IsSettled) (λ d p. inl no_token))
        (λ _.
          Ensures-weaken _ _ (λ _. IsSettled) (register-IsSettled rpc block hints) (λ a d p. inr p))

  -- The chain is asked about a token once at most: after a call of `ensureToken` without an error, a
  -- further call for the token, with any tables as that call left them, comes to the same with any
  -- endpoint as without one.
  pub ensure_token-asks_once :
      (rpc : Option Rpc) (block : ℕ) (hints : TokenMeta) (w w' : World)
      → ensure_token rpc c raw block hints w ≡ (ok tt, w')
      → (again : Option Rpc) (later_block : ℕ) (later_hints : TokenMeta) (v : World) → v.db ≡ w'.db
      → ensure_token again c raw later_block later_hints v
        ≡ ensure_token none c raw later_block later_hints v
  ensure_token-asks_once rpc block hints w w' done again later_block later_hints v same =
      let settled : IsSettled w'.db =
        subst (Claims (λ _. IsSettled)) done ((ensure_token-IsSettled rpc block hints).run w tt) in
      ensure_token-settled again later_block later_hints v (subst IsSettled (sym same) settled)
