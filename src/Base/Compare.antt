-- ===== src/Base/Compare.antt =====
-- Three-way comparisons: an `int` of -1, 0 or 1 is an `Ordering`. What makes one a total preorder,
-- and how that passes to lexicographic combinations.
use Prim.Native.Nat.{ℕ, compare, Ordering}
use Prim.Native.Nat.Ordering.{lt, eq, gt}
use mathlib.Core.Path.{◌≡◌, refl}
use mathlib.Core.List.{[], ◌∷◌}
use native.Mathlib.Omega.{arith}
use cheburnet.Base.Lists.{Bytes}

abbrev pub swap : Ordering → Ordering
swap lt = gt
swap eq = eq
swap gt = lt

-- The first verdict that is not 0.
abbrev pub or_else : Ordering → Ordering → Ordering
or_else lt y = lt
or_else eq y = y
or_else gt y = gt

-- Laws of a three-way comparison on the values that meet `P`.
pub record IsPreorder {ℓ κ} {A : Type ℓ} (P : A → Type κ) (cmp : A → A → Ordering)
    : Type (ℓ ⊔ κ) where
  pub flip : (a b : A) → cmp b a ≡ swap (cmp a b)
  pub eq_left : (a b c : A) → P a → P b → P c → cmp a b ≡ eq → cmp b c ≡ cmp a c
  pub lt_trans : (a b c : A) → P a → P b → P c → cmp a b ≡ lt → cmp b c ≡ lt → cmp a c ≡ lt

pub swap-compare : (a b : ℕ) → compare b a ≡ swap (compare a b)
swap-compare a b = ground arith

-- `compare` of `std::string`: by the first byte that differs, then by the length.
unfoldable pub bytes_cmp : Bytes → Bytes → Ordering
bytes_cmp [] [] = eq
bytes_cmp [] (y ∷ ys) = lt
bytes_cmp (x ∷ xs) [] = gt
bytes_cmp (x ∷ xs) (y ∷ ys) = or_else (compare x y) (bytes_cmp xs ys)

pub bytes_cmp_flip : (a b : Bytes) → bytes_cmp b a ≡ swap (bytes_cmp a b)
unfolding bytes_cmp
bytes_cmp_flip (x ∷ a) (y ∷ b) = ground (arith, bytes_cmp_flip a b)
bytes_cmp_flip _ _ = ground arith

pub bytes_cmp-eq : (a b : Bytes) → bytes_cmp a b ≡ eq → a ≡ b
unfolding bytes_cmp
bytes_cmp-eq (x ∷ a) (y ∷ b) h = ground (arith, bytes_cmp-eq a b)
bytes_cmp-eq [] [] h = refl
bytes_cmp-eq _ _ h = cc

pub bytes_cmp_trans : (a b c : Bytes) → bytes_cmp a b ≡ lt → bytes_cmp b c ≡ lt → bytes_cmp a c ≡ lt
unfolding bytes_cmp
bytes_cmp_trans (x ∷ a) (y ∷ b) (z ∷ c) h k = ground (arith, bytes_cmp_trans a b c)
bytes_cmp_trans _ _ _ h k = ground arith

pub bytes_cmp_refl : (a : Bytes) → bytes_cmp a a ≡ eq
unfolding bytes_cmp
bytes_cmp_refl [] = refl
bytes_cmp_refl (x ∷ a) = ground (arith, bytes_cmp_refl a)

pub bytes_cmp-eq_left : (a b c : Bytes) → bytes_cmp a b ≡ eq → bytes_cmp b c ≡ bytes_cmp a c
bytes_cmp-eq_left a b c h = rw (bytes_cmp-eq a b h)

pub bytes_cmp-IsPreorder : IsPreorder {A = Bytes} (λ _. Unit {0}) bytes_cmp
bytes_cmp-IsPreorder = record {
  flip = bytes_cmp_flip;
  eq_left = λ a b c _ _ _. bytes_cmp-eq_left a b c;
  lt_trans = λ a b c _ _ _. bytes_cmp_trans a b c;
}

-- Two comparisons in turn, each on its own key of a value.
module _ {ℓ κ} {A : Type ℓ} {P : A → Type κ} {f g : A → A → Ordering} where
  pub or_else-IsPreorder :
      IsPreorder P f → IsPreorder P g → IsPreorder P (λ a b. or_else (f a b) (g a b))
  or_else-IsPreorder pf pg = record {
    flip = λ a b. ground (arith, pf.flip a b, pg.flip a b);
    eq_left =
        λ a b c pa pb pc h. ground (arith, pf.eq_left a b c pa pb pc, pg.eq_left a b c pa pb pc);
    lt_trans = λ a b c pa pb pc h k. ground (
      arith,
      pf.flip a b,
      pf.flip b c,
      pf.flip a c,
      pf.eq_left a b c pa pb pc,
      pf.eq_left c b a pc pb pa,
      pf.lt_trans a b c pa pb pc,
      pg.lt_trans a b c pa pb pc,
    );
  }
