-- ===== src/Startup/Devices.antt =====
-- Which driver a device gets.
use karg.Base.{
  zero, suc, ◌≡◌, ◌≢◌, refl, sym, subst, ap, ◌⊎◌, inl, inr, List, [], ◌∷◌, ◌++◌, ℤ, pos, negsuc,
  is_neg, if◌then◌else◌, arith,
}
use karg.Startup.{DevNode, DevInit, Loaded, loaded, failed, no_driver_found, init_dev}
use karg.Utils.{str_cmp}

module _ {ℓ} (S : Type ℓ) (node : DevNode S) where
  abbrev pub AllOther : List (DevInit S) → Type 0
  AllOther [] = Unit
  AllOther (d ∷ ds) = (str_cmp d.compat node.name ≢ pos 0) × AllOther ds

  -- What the initialiser of `d` makes of the device.
  abbrev pub load : DevInit S → S → Loaded S × S
  load d s =
      let (res, s') = d.init node s in
      if is_neg res then (failed d.name node.name res, s') else (loaded d.name node.name, s')

  abbrev Outcome : List (DevInit S) → S → Loaded S × S → Type ℓ
  Outcome ds s r =
      (AllOther ds × (r ≡ (no_driver_found node.name, s)))
      ⊎ ((before : List (DevInit S)) × (d : DevInit S) × (behind : List (DevInit S)) × (ds
            ≡ before ++ d ∷ behind)
          × AllOther before
          × (str_cmp d.compat node.name ≡ pos 0)
          × (r ≡ load d s))

  skips :
      (d : DevInit S) (ds : List (DevInit S)) (s : S) (r : Loaded S × S)
      → str_cmp d.compat node.name ≢ pos 0
      → Outcome ds s r
      → Outcome (d ∷ ds) s r
  skips d ds s r n (inl (others, e)) = inl ((n, others), e)
  skips d ds s r n (inr (before, d', behind, split, others, same, e)) =
      inr (d ∷ before, d', behind, ap (λ l. d ∷ l) split, (n, others), same, e)

  -- A device gets the first driver whose compatible name compares equal to its own, and that driver's
  -- initialiser alone is called; what is logged says whether it failed. When there is no such driver,
  -- nothing is called and that is logged.
  pub init_dev_lem :
      (ds : List (DevInit S)) (s : S)
      → (AllOther ds × (init_dev S node ds s ≡ (no_driver_found node.name, s)))
        ⊎ ((before : List (DevInit S)) × (d : DevInit S) × (behind : List (DevInit S)) × (ds
              ≡ before ++ d ∷ behind)
            × AllOther before
            × (str_cmp d.compat node.name ≡ pos 0)
            × (init_dev S node ds s ≡ load d s))
  unfolding init_dev
  init_dev_lem [] s = inl (tt, refl)
  init_dev_lem (d ∷ ds) s = go (str_cmp d.compat node.name) refl (init_dev_lem ds s)
    where
      by_order : ℤ → Loaded S × S
      by_order z = elim z [ pos zero ↦ load d s | _ ↦ init_dev S node ds s ]

      go :
          (z : ℤ)
          → str_cmp d.compat node.name ≡ z
          → Outcome ds s (init_dev S node ds s)
          → Outcome (d ∷ ds) s (init_dev S node (d ∷ ds) s)
      go (pos zero) e rest = inr ([], d, ds, refl, tt, e, ap by_order e)
      go (pos (suc n)) e rest =
          subst (Outcome (d ∷ ds) s) (sym (ap by_order e))
            (skips d ds s (init_dev S node ds s) (ground (arith, e)) rest)
      go (negsuc n) e rest =
          subst (Outcome (d ∷ ds) s) (sym (ap by_order e))
            (skips d ds s (init_dev S node ds s) (ground (arith, e)) rest)
