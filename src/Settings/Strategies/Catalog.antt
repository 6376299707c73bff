-- ===== src/Settings/Strategies/Catalog.antt =====
-- What holds of a catalog that is loaded.
use cheburnet.Base.{
  ℕ, ◌+◌, ◌-◌, ◌≤◌, ◌≡◌, refl, ap, sym, subst, ◌∙◌, Bool, true, false, not, Option, some, List, [],
  ◌∷◌, ◌++◌, arith, Bytes, codes, length, All, leb,
}
use cheburnet.Json.{as_string, Value, Items, nil, cons}
use cheburnet.Json.Parser.{parse}
use cheburnet.Update.Manifest.{>>=-eq-some, require}
use cheburnet.Update.Package.{folded, member}
use cheburnet.Settings.Config.{is_valid_strategy_id_syntax}
use cheburnet.Settings.Strategies.{
  new_catalog_scan, parsed_catalog, RuntimeStrategy, runtime_strategy, add_strategy, CatalogEntry,
  valid_template_token, CatalogScan, read_catalog_entry, read_arguments, items_length,
  scan_strategy, scan_strategies, catalog_entries, load_catalog, catalog_options,
}

abbrev pub total_arguments : List RuntimeStrategy → ℕ
total_arguments [] = 0
total_arguments (s ∷ ss) = length s.arg_template + total_arguments ss

-- The ids without regard to case, the last one first.
abbrev pub ids_of : List Bytes → List RuntimeStrategy → List Bytes
ids_of before [] = before
ids_of before (s ∷ ss) = ids_of (folded s.id ∷ before) ss

abbrev pub AllNew : List Bytes → List RuntimeStrategy → Type 0
AllNew before [] = Unit
AllNew before (s ∷ ss) = (member (folded s.id) before ≡ false) × AllNew (folded s.id ∷ before) ss

pub record IsStrategy (s : RuntimeStrategy) : Type 0 where
  pub id_valid : is_valid_strategy_id_syntax s.id ≡ true
  pub arguments_ge : 1 ≤ length s.arg_template
  pub arguments_le : length s.arg_template ≤ 1024

-- What the loop over the entries keeps true of the catalog that it builds.
pub record IsCatalog (ss : List RuntimeStrategy) : Type 0 where
  pub strategies : All IsStrategy ss
  pub distinct : AllNew [] ss
  pub total_le : total_arguments ss ≤ 100000

record IsScan (s : CatalogScan) : Type 0 where
  catalog : IsCatalog s.candidate
  ids : s.ids ≡ ids_of [] s.candidate
  total : s.total_tokens ≡ total_arguments s.candidate

All-snoc :
    (ss : List RuntimeStrategy) (r : RuntimeStrategy)
    → All IsStrategy ss
    → IsStrategy r
    → All IsStrategy (ss ++ (r ∷ []))
All-snoc [] r h k = (k, tt)
All-snoc (s ∷ ss) r h k = (h.0, All-snoc ss r h.1 k)

AllNew-snoc :
    (before : List Bytes) (ss : List RuntimeStrategy) (r : RuntimeStrategy)
    → AllNew before ss
    → member (folded r.id) (ids_of before ss) ≡ false
    → AllNew before (ss ++ (r ∷ []))
AllNew-snoc before [] r h k = (k, tt)
AllNew-snoc before (s ∷ ss) r h k = (h.0, AllNew-snoc (folded s.id ∷ before) ss r h.1 k)

ids_of-snoc :
    (before : List Bytes) (ss : List RuntimeStrategy) (r : RuntimeStrategy)
    → ids_of before (ss ++ (r ∷ [])) ≡ folded r.id ∷ ids_of before ss
ids_of-snoc before [] r = refl
ids_of-snoc before (s ∷ ss) r = ids_of-snoc (folded s.id ∷ before) ss r

total_arguments-snoc :
    (ss : List RuntimeStrategy) (r : RuntimeStrategy)
    → total_arguments (ss ++ (r ∷ [])) ≡ total_arguments ss + length r.arg_template
total_arguments-snoc [] r = omega arith
total_arguments-snoc (s ∷ ss) r = omega (arith, total_arguments-snoc ss r)

read_catalog_entry-facts :
    (value : Value) {e : CatalogEntry}
    → read_catalog_entry value ≡ some e
    → (is_valid_strategy_id_syntax e.id ≡ true)
      × ((1 ≤ items_length e.argv) × (items_length e.argv ≤ 1024))
unfolding read_catalog_entry
read_catalog_entry-facts value h = ground arith

-- What a round adds.
record IsAdded (r : RuntimeStrategy) (s t : CatalogScan) : Type 0 where
  strategy : IsStrategy r
  new : member (folded r.id) s.ids ≡ false
  ids : t.ids ≡ folded r.id ∷ s.ids
  candidate : t.candidate ≡ s.candidate ++ (r ∷ [])
  total : t.total_tokens ≡ s.total_tokens + length r.arg_template
  total_le : t.total_tokens ≤ 100000

some-injective : {A : Type 0} {a b : A} → Option.some a ≡ some b → a ≡ b
some-injective h = ground arith

new-false : (b : Bool) → not b ≡ true → b ≡ false
new-false b h = ground arith

leb-le : (a b : ℕ) → leb a b ≡ true → a ≤ b
leb-le a b h = ground arith

require-true : (b : Bool) {u : Unit {0}} → require b ≡ some u → b ≡ true
require-true b h = ground arith

module _ (to_utf16 : Bytes → Bytes) where
  read_arguments-length :
      (values : Items) {arguments : List Bytes}
      → read_arguments to_utf16 values ≡ some arguments
      → length arguments ≡ items_length values
  unfolding read_arguments
  read_arguments-length nil h = ground arith
  read_arguments-length (cons value values) {arguments = arguments} h =
      let (token, _, h₁) = >>=-eq-some (as_string value) _ {b = arguments} h in
      let (_, _, h₂) = >>=-eq-some (require (valid_template_token token)) _ {b = arguments} h₁ in
      let (rest, read, h₃) = >>=-eq-some (read_arguments to_utf16 values) _ {b = arguments} h₂ in
      let shorter = read_arguments-length values {arguments = rest} read in ground arith

module _ (to_utf16 : Bytes → Bytes) (imported : Bytes) where
  add_strategy-IsAdded :
      (e : CatalogEntry) (arguments : List Bytes) (s : CatalogScan)
      → (is_valid_strategy_id_syntax e.id ≡ true)
        × ((1 ≤ items_length e.argv) × (items_length e.argv ≤ 1024))
      → length arguments ≡ items_length e.argv
      → member (folded e.id) s.ids ≡ false
      → s.total_tokens ≤ 100000 - items_length e.argv
      → IsAdded
          (runtime_strategy to_utf16 imported e arguments)
          s
          (add_strategy to_utf16 imported e arguments s)
  add_strategy-IsAdded e arguments s facts same new room = ground arith

  scan_strategy-IsAdded :
      (value : Value) (s : CatalogScan) {t : CatalogScan}
      → scan_strategy to_utf16 imported value s ≡ some t
      → (r : RuntimeStrategy) × IsAdded r s t
  unfolding scan_strategy
  scan_strategy-IsAdded value s {t = t} h =
      let (e, read, h₁) = >>=-eq-some (read_catalog_entry value) _ {b = t} h in
      let (u, new, h₂) = >>=-eq-some (require (not (member (folded e.id) s.ids))) _ {b = t} h₁ in
      let (v, room, h₃) =
        >>=-eq-some (require (leb s.total_tokens (100000 - items_length e.argv))) _ {b = t} h₂ in
      let (arguments, args_read, h₄) = >>=-eq-some (read_arguments to_utf16 e.argv) _ {b = t} h₃ in
      let same = read_arguments-length to_utf16 e.argv {arguments = arguments} args_read in
      (
        runtime_strategy to_utf16 imported e arguments,
        subst (IsAdded (runtime_strategy to_utf16 imported e arguments) s) (some-injective h₄) (
            add_strategy-IsAdded e arguments s (read_catalog_entry-facts value {e = e} read) same
              (new-false (member (folded e.id) s.ids) (require-true _ {u = u} new))
              (leb-le s.total_tokens (100000 - items_length e.argv) (require-true _ {u = v} room))),
      )

IsAdded-IsScan : (r : RuntimeStrategy) (s t : CatalogScan) → IsAdded r s t → IsScan s → IsScan t
IsAdded-IsScan r s t a h = record {
  catalog = subst IsCatalog (sym a.candidate) (record {
    strategies = All-snoc s.candidate r h.catalog.strategies a.strategy;
    distinct =
        AllNew-snoc [] s.candidate r h.catalog.distinct
          (ap (member (folded r.id)) (sym h.ids) ∙ a.new);
    total_le = omega (arith, total_arguments-snoc s.candidate r, h.total, a.total, a.total_le);
  });
  ids =
      a.ids
      ∙ ap (λ ids. folded r.id ∷ ids) h.ids
      ∙ sym (ids_of-snoc [] s.candidate r)
      ∙ ap (ids_of []) (sym a.candidate);
  total =
      a.total
      ∙ ap (λ n. n + length r.arg_template) h.total
      ∙ sym (total_arguments-snoc s.candidate r)
      ∙ ap total_arguments (sym a.candidate);
}

module _ (to_utf16 : Bytes → Bytes) (imported : Bytes) where
  scan_strategies-IsScan :
      (values : Items) (s : CatalogScan) {t : CatalogScan}
      → IsScan s
      → scan_strategies to_utf16 imported values s ≡ some t
      → IsScan t
  unfolding scan_strategies
  scan_strategies-IsScan nil s h e = subst IsScan (some-injective e) h
  scan_strategies-IsScan (cons value values) s {t = t} h e =
      let (u, scanned, e₁) = >>=-eq-some (scan_strategy to_utf16 imported value s) _ {b = t} e in
      let (r, added) = scan_strategy-IsAdded to_utf16 imported value s {t = u} scanned in
      scan_strategies-IsScan values u {t = t} (IsAdded-IsScan r s u added h) e₁

  -- A catalog that is loaded has strategies whose ids have the allowed syntax and are pairwise
  -- different without regard to case, `general` among them; each has from 1 to 1024 arguments, and
  -- all together at most 100000.
  pub load_catalog-IsCatalog :
      (strategy_schema : ℕ) (bytes : Bytes) {ss : List RuntimeStrategy}
      → load_catalog to_utf16 strategy_schema imported bytes ≡ some ss
      → IsCatalog ss × (member (codes "general") (ids_of [] ss) ≡ true)
  unfolding load_catalog
  load_catalog-IsCatalog strategy_schema bytes {ss = ss} e =
      let (root, _, e₁) = >>=-eq-some (parsed_catalog (parse catalog_options bytes)) _ {b = ss} e in
      let (entries, _, e₂) = >>=-eq-some (catalog_entries strategy_schema root) _ {b = ss} e₁ in
      let (t, scanned, e₃) =
        >>=-eq-some (scan_strategies to_utf16 imported entries new_catalog_scan) _ {b = ss} e₂ in
      let (u, found, e₄) = >>=-eq-some (require (member (codes "general") t.ids)) _ {b = ss} e₃ in
      let scan =
        scan_strategies-IsScan entries new_catalog_scan {t = t}
          (record {
            catalog = record { strategies = tt; distinct = tt; total_le = omega arith };
            ids = refl;
            total = refl;
          })
          scanned in
      let same = some-injective e₄ in
      (
        subst IsCatalog same scan.catalog,
        ap (λ c. member (codes "general") (ids_of [] c)) (sym same)
            ∙ ap (member (codes "general")) (sym scan.ids)
            ∙ require-true _ {u = u} found,
      )
