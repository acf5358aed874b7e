-- ===== src/Start/Configured.antt =====
-- What the configuration and the table of contracts make of the registry.
use clear_evmi_plugin.Prelude.{
  ℕ, ◌≡◌, refl, ◌∙◌, ap, subst, Bool, true, false, ◌||◌, ◌&&◌, List, [], ◌∷◌, Option, none, some,
  or_else, ◌==◌, ==-eq, ==-refl, nat_equality, list_equality, pair_equality, if◌then◌else◌,
}
use mathlib.Core.Option
use clear_evmi_plugin.Text.{Text}
use clear_evmi_plugin.Address.{norm_addr, norm_addr_idem}
use clear_evmi_plugin.Args.{is_empty}
use clear_evmi_plugin.Kind.{ContractKind, kind_token, kind_from_string}
use clear_evmi_plugin.Table.{find, upsert}
use clear_evmi_plugin.Table.Laws.{find-upsert, upserted}
use clear_evmi_plugin.Table.Column.{is_some}
use clear_evmi_plugin.Db.{Db, ContractRow, config}
use clear_evmi_plugin.Registry.{
  is_unknown, Registry, remember, ContractConfig, seed_contracts, registry_of,
}
use clear_evmi_plugin.Records.Contracts.{Contracts, IsKeyed, upsert-IsKeyed}
use clear_evmi_plugin.Exec.{write, ◌>>◌}
use clear_evmi_plugin.Exec.Ensures.{
  Ensures, Keeps, Ensures-pure, Ensures-write, Ensures-then, Ensures-if,
}

-- The stored kind of an address.
abbrev pub kind_at : ℕ → Text → Contracts → Option Text
kind_at c a t = Option.map (λ row. row.kind) (find (c, a) t)

-- The last entry of the configuration that names the address, or else what was stored.
unfoldable pub seeded : Text → List ContractConfig → Option Text → Option Text
seeded a [] o = o
seeded a (entry ∷ entries) o =
    let addr = norm_addr entry.address in
    let k = kind_from_string entry.kind in
    seeded a entries
      (if is_empty addr || is_unknown k then o else (if addr == a then some (kind_token k) else o))

-- The kind that a stored text names.
abbrev pub kind_named : Option Text → Option ContractKind
kind_named none = none
kind_named (some token) = let k = kind_from_string token in if is_unknown k then none else some k

-- One entry of the configuration is written.
abbrev pub seed_one : ℕ → ContractConfig → Db → Db
seed_one c entry d =
    let k = kind_from_string entry.kind in
    record d {
      contracts =
          upsert (c, norm_addr entry.address)
            (record { kind = kind_token k; source = config; first_block = none })
            (λ row. record row { kind = kind_token k; source = config }) d.contracts;
    }

module _ (c : ℕ) (a : Text) where
  kind_at-upsert :
      (addr token : Text) (t : Contracts)
      → kind_at c a (
          upsert
            (c, addr)
            (record { kind = token; source = config; first_block = none })
            (λ row. record row { kind = token; source = config })
            t)
        ≡ (if addr == a then some token else kind_at c a t)
  kind_at-upsert addr token t =
      rw
        (
          find-upsert {K = ℕ × Text} (c, addr) (c, a)
              (record { kind = token; source = config; first_block = none })
              (λ row. record row { kind = token; source = config }) t,
          ==-refl c,
        )
        (by_test (addr == a) (find (c, addr) t))
    where
      by_test :
          (b : Bool) (o : Option ContractRow)
          → Option.map
              (λ (row : ContractRow). row.kind)
              (if b
                then some (
                    upserted
                      (record { kind = token; source = config; first_block = none })
                      (λ row. record row { kind = token; source = config })
                      o)
                else find (c, a) t)
            ≡ (if b then some token else kind_at c a t)
      by_test true none = refl
      by_test true (some row) = refl
      by_test false o = refl

  -- Where all its statements are served, the seeding stores just that.
  pub seed_contracts-kind_at :
      (entries : List ContractConfig) (o : Option Text)
      → Ensures
          (λ d. kind_at c a d.contracts ≡ o)
          (seed_contracts c entries)
          (λ _ d. kind_at c a d.contracts ≡ seeded a entries o)
  unfolding seed_contracts seeded
  seed_contracts-kind_at [] o = Ensures-pure tt _ (λ d p. p)
  seed_contracts-kind_at (entry ∷ entries) o =
      by_test (is_empty (norm_addr entry.address) || is_unknown (kind_from_string entry.kind))
        (seed_contracts-kind_at entries)
    where
      by_test :
          (skipped : Bool)
          → ((o : Option Text)
              → Ensures
                  (λ d. kind_at c a d.contracts ≡ o)
                  (seed_contracts c entries)
                  (λ _ d. kind_at c a d.contracts ≡ seeded a entries o))
          → Ensures
              (λ d. kind_at c a d.contracts ≡ o)
              (if skipped
                then seed_contracts c entries
                else write (seed_one c entry) >> seed_contracts c entries)
              (λ _ d.
                kind_at c a d.contracts
                ≡ seeded a entries (
                    if skipped
                    then o
                    else (if norm_addr entry.address == a
                        then some (kind_token (kind_from_string entry.kind))
                        else o)))
      by_test true ih = ih o
      by_test false ih =
          Ensures-then (write (seed_one c entry)) (seed_contracts c entries)
            (λ d. kind_at c a d.contracts ≡ (
              if norm_addr entry.address == a
              then some (kind_token (kind_from_string entry.kind))
              else o))
            _
            (Ensures-write (seed_one c entry) (λ d p.
              kind_at-upsert (norm_addr entry.address) _ d.contracts
              ∙ ap
                  (λ x.
                    if norm_addr entry.address == a
                    then some (kind_token (kind_from_string entry.kind))
                    else x)
                  p))
            (ih _)

pub seed_contracts-IsKeyed :
    (c : ℕ) (entries : List ContractConfig)
    → Keeps (λ d. IsKeyed d.contracts) (seed_contracts c entries)
unfolding seed_contracts
seed_contracts-IsKeyed c [] = Ensures-pure tt _ (λ d p. p)
seed_contracts-IsKeyed c (entry ∷ entries) =
    Ensures-if (is_empty (norm_addr entry.address) || is_unknown (kind_from_string entry.kind)) _
      (write (seed_one c entry) >> seed_contracts c entries) (λ _. seed_contracts-IsKeyed c entries)
      (λ _.
        Ensures-then (write (seed_one c entry)) (seed_contracts c entries)
          (λ d. IsKeyed d.contracts) _
          (Ensures-write (seed_one c entry) (λ d p.
            upsert-IsKeyed c (norm_addr entry.address) _ _ (norm_addr_idem entry.address).0
              d.contracts p))
          (seed_contracts-IsKeyed c entries))

not_present : (o : Option ContractRow) → is_some o ≡ false → o ≡ none
not_present none e = refl
not_present (some row) e = cc

module _ (c : ℕ) (a : Text) where
  -- A row is entered.
  entered :
      (i : ℕ) (addr : Text) (k : ContractKind) (reg : Registry)
      → find a (if i == c then (if is_unknown k then reg else remember addr k reg) else reg) ≡ (
          if i == c && addr == a
          then or_else (if is_unknown k then none else some k) (find a reg)
          else find a reg)
  entered i addr k reg =
      by_tests (i == c) (is_unknown k) (addr == a)
        (rw (find-upsert addr a k (λ _. k) reg) (upserted_same (addr == a) (find addr reg)))
    where
      upserted_same :
          (b : Bool) (o : Option ContractKind)
          → (if b then some (upserted k (λ _. k) o) else find a reg)
            ≡ (if b then some k else find a reg)
      upserted_same b none = refl
      upserted_same b (some j) = refl

      by_tests :
          (own unknown met : Bool)
          → find a (remember addr k reg) ≡ (if met then some k else find a reg)
          → find a (if own then (if unknown then reg else remember addr k reg) else reg) ≡ (
              if own && met
              then or_else (if unknown then none else some k) (find a reg)
              else find a reg)
      by_tests true true true h = refl
      by_tests true true false h = refl
      by_tests true false true h = h
      by_tests true false false h = h
      by_tests false unknown met h = refl

  -- The registry that is loaded has the address with the kind that its row names.
  pub registry_of-find :
      (t : Contracts) (reg : Registry)
      → IsKeyed t
      → find a (registry_of c t reg) ≡ or_else (kind_named (kind_at c a t)) (find a reg)
  unfolding registry_of find
  registry_of-find [] reg h = refl
  registry_of-find (((i, addr), row) ∷ t) reg h = rw h.0 (
      registry_of-find t (reg_with i addr row) h.1.1
      ∙ by_key (i == c && addr == a) refl (entered i addr (kind_from_string row.kind) reg))
    where
      reg_with : ℕ → Text → ContractRow → Registry
      reg_with i addr row =
          let k = kind_from_string row.kind in
          if i == c then (if is_unknown k then reg else remember addr k reg) else reg

      absent : (i == c && addr == a) ≡ true → find (c, a) t ≡ none
      absent e =
          let met : ◌≡◌ {A = ℕ × Text} (i, addr) (c, a) = ==-eq (i, addr) (c, a) e in
          subst (λ (key : ℕ × Text). find key t ≡ none) met (not_present (find (i, addr) t) h.1.0)

      by_key :
          (met : Bool)
          → (i == c && addr == a) ≡ met
          → find a (reg_with i addr row)
            ≡ (if met then or_else (kind_named (some row.kind)) (find a reg) else find a reg)
          → or_else (kind_named (kind_at c a t)) (find a (reg_with i addr row))
            ≡ or_else
                (kind_named (
                  Option.map
                    (λ (r : ContractRow). r.kind)
                    (if met then some row else find (c, a) t)))
                (find a reg)
      by_key true e told = rw (absent e) told
      by_key false e told = ap (or_else (kind_named (kind_at c a t))) told
