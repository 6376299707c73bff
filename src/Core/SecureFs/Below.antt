-- ===== src/Core/SecureFs/Below.antt =====
-- That lying below a directory is a strict order, and what it says of the two paths.
use cheburnet.Base.{
  ℕ, ◌≡◌, sym, subst, ◌≢◌, ◌↔◌, true, false, [], ◌∷◌, ◌++◌, arith, Bytes, append_assoc, append-nil,
}
use cheburnet.Core.Files.{Files, a_directory}
use cheburnet.Core.SecureFs.{
  folded_path, is_strict_descendant, validate_from, validate_path_components,
}
use cheburnet.Core.SecureFs.Folded.{
  IsUnder, is_below-parts, is_below-IsUnder, IsUnder-is_below, is_below_trans, is_below-short,
}

module _ {W : Type 0} (files : Files W) where
  -- `IsStrictDescendant` finds a path below another exactly if, once both are folded, the other is not
  -- empty and the path is the other, then a backslash, then a rest; or the other, which ends with a
  -- backslash, and then a rest that is not empty. So what lies beside a directory, under a name that
  -- only goes on from its own, is not below it.
  pub is_strict_descendant-IsUnder :
      (a b : Bytes)
      → (is_strict_descendant files a b ≡ true)
        ↔ ((folded_path files a ≢ []) × IsUnder (folded_path files a) (folded_path files b))
  unfolding is_strict_descendant
  is_strict_descendant-IsUnder a b = (
    λ h.
        let r = folded_path files a in
        let s = folded_path files b in ((is_below-parts r s h).0, is_below-IsUnder r s h),
    λ (full, u). IsUnder-is_below (folded_path files a) (folded_path files b) full u,
  )

  -- `IsStrictDescendant` is transitive, and what it finds below a path never has that path below it. If
  -- `b` lies below `a` and `c` below `b`, then `c` lies below `a`, and is, folded, the folded `a`, a
  -- backslash, which may be its last character, and a rest; and `a` does not lie below `c`.
  pub is_strict_descendant_trans :
      (a b c : Bytes)
      → is_strict_descendant files a b ≡ true
      → is_strict_descendant files b c ≡ true
      → (is_strict_descendant files a c ≡ true)
        × (IsUnder (folded_path files a) (folded_path files c)
            × (is_strict_descendant files c a ≡ false))
  unfolding is_strict_descendant
  is_strict_descendant_trans a b c h k =
      let r = folded_path files a in
      let s = folded_path files b in
      let t = folded_path files c in
      let below = is_below_trans r s t h k in
      let (full, (longer, prefix)) = is_below-parts r t below in
      (below, (is_below-IsUnder r t below, is_below-short t r (omega (arith, longer))))

  validate_from-here :
      (front s : Bytes) (w : W)
      → validate_from files front (b'\\' ∷ s) w ≡ true
      → files.validate_object front a_directory false w ≡ true
  unfolding validate_from
  validate_from-here front s w h = ground arith

  validate_from-later :
      (front : Bytes) (c : ℕ) (s : Bytes) (w : W)
      → validate_from files front (c ∷ s) w ≡ true
      → validate_from files (front ++ (c ∷ [])) s w ≡ true
  unfolding validate_from
  validate_from-later front c s w h = ground arith

  abbrev IsDirectory : Bytes → W → Type 0
  IsDirectory path w = files.validate_object path a_directory false w ≡ true

  validate_from-IsDirectory :
      (front a b : Bytes) (w : W)
      → validate_from files front (a ++ (b'\\' ∷ b)) w ≡ true
      → IsDirectory (front ++ a) w
  validate_from-IsDirectory front [] b w h =
      subst (λ p. IsDirectory p w) (sym (append-nil front)) (validate_from-here front b w h)
  validate_from-IsDirectory front (c ∷ a) b w h =
      subst (λ p. IsDirectory p w) (append_assoc front (c ∷ []) a)
        (validate_from-IsDirectory (front ++ (c ∷ [])) a b w
          (validate_from-later front c (a ++ (b'\\' ∷ b)) w h))

  validate_from-last :
      (front s : Bytes) (w : W) → validate_from files front s w ≡ true → IsDirectory (front ++ s) w
  validate_from-last front [] w h =
      subst (λ p. IsDirectory p w) (sym (append-nil front)) (unfold validate_from in h)
  validate_from-last front (c ∷ s) w h =
      subst (λ p. IsDirectory p w) (append_assoc front (c ∷ []) s)
        (validate_from-last (front ++ (c ∷ [])) s w (validate_from-later front c s w h))

  -- Where `ValidatePathComponents` accepts a path whose full form is a drive `x:\`, some text, a
  -- backslash and a rest, the path up to that backslash and the whole path are directories that the
  -- system opened without following a reparse point.
  pub validate_path_components-ancestors :
      (path : Bytes) (drive : ℕ) (a b : Bytes) (w : W)
      → files.full_path path ≡ drive ∷ b':' ∷ b'\\' ∷ (a ++ (b'\\' ∷ b))
      → validate_path_components files path w ≡ true
      → (files.validate_object (drive ∷ b':' ∷ b'\\' ∷ a) a_directory false w ≡ true)
        × (files.validate_object (files.full_path path) a_directory false w ≡ true)
  unfolding validate_path_components
  validate_path_components-ancestors path drive a b w e h =
      let whole : validate_from files (drive ∷ b':' ∷ b'\\' ∷ []) (a ++ (b'\\' ∷ b)) w ≡ true =
        ground arith in
      (
        validate_from-IsDirectory (drive ∷ b':' ∷ b'\\' ∷ []) a b w whole,
        subst (λ p. IsDirectory p w) (sym e)
            (validate_from-last (drive ∷ b':' ∷ b'\\' ∷ []) (a ++ (b'\\' ∷ b)) w whole),
      )
