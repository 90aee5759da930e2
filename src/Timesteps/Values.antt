-- ===== src/Timesteps/Values.antt =====
-- The cell values of a haloed grid after a number of timesteps.
use gudra.Common.{
  ℕ, zero, suc, ◌+◌, ◌-◌, ◌≤◌, ◌<◌, ◌≡◌, refl, ◌∙◌, arith, inl, inr, false, Bool, Bool-cases, ◌&&◌,
  ltb, leb, if◌then◌else◌, F32, Arithmetic,
}
use gudra.Params.{JacobiParams}
use gudra.Reference.{jacobi_value}

module _ (h w : ℕ) where
  -- A position of the haloed grid lies in the interior.
  abbrev pub inside : ℕ → ℕ → Bool
  inside r c = ltb 0 r && leb r h && ltb 0 c && leb c w

  -- Two grids agree on the haloed extent.
  abbrev pub Agree : (u v : ℕ → ℕ → F32) → Type 0
  Agree u v = (r c : ℕ) → r < h + 2 → c < w + 2 → u r c ≡ v r c

module _ (m : Arithmetic) (params : JacobiParams) (h w : ℕ) (forcing : ℕ → ℕ → F32) where
  -- One Jacobi update of the interior of a haloed grid, with the halo as it is.
  abbrev pub next_value : (ℕ → ℕ → F32) → ℕ → ℕ → F32
  next_value u r c =
      if inside h w r c
      then jacobi_value m params
          (record {
            north = u (r - 1) c;
            south = u (r + 1) c;
            east = u r (c + 1);
            west = u r (c - 1);
            center = u r c;
          })
          (forcing (r - 1) (c - 1))
      else u r c

  -- The updates of a number of timesteps, each on the values of the one before.
  abbrev pub evolved : ℕ → (ℕ → ℕ → F32) → ℕ → ℕ → F32
  evolved zero u = u
  evolved (suc steps) u = evolved steps (next_value u)

  next_value-Agree : (u v : ℕ → ℕ → F32) → Agree h w u v → Agree h w (next_value u) (next_value v)
  next_value-Agree u v same r c hr hc = elim (Bool-cases (inside h w r c)) [
    | inr halo ↦ rw halo (same r c hr hc)
    | inl interior ↦
        let above : 0 < r = ground arith in
        let below : r ≤ h = ground arith in
        let after : 0 < c = ground arith in
        let before : c ≤ w = ground arith in
        rw (
          interior,
          same (r - 1) c (omega arith) hc,
          same (r + 1) c (omega arith) hc,
          same r (c + 1) hr (omega arith),
          same r (c - 1) hr (omega arith),
          same r c hr hc,
        )
  ]

  pub evolved-Agree :
      (steps : ℕ) (u v : ℕ → ℕ → F32)
      → Agree h w u v
      → Agree h w (evolved steps u) (evolved steps v)
  evolved-Agree zero u v same = same
  evolved-Agree (suc steps) u v same =
      evolved-Agree steps (next_value u) (next_value v) (next_value-Agree u v same)

  -- No timestep changes the halo.
  pub evolved_halo :
      (steps : ℕ) (u : ℕ → ℕ → F32) (r c : ℕ) → inside h w r c ≡ false → evolved steps u r c ≡ u r c
  evolved_halo zero u r c halo = refl
  evolved_halo (suc steps) u r c halo = evolved_halo steps (next_value u) r c halo ∙ rw halo refl

module _ (m : Arithmetic) (params : JacobiParams) (h w : ℕ) (f g : ℕ → ℕ → F32)
    (same : (r c : ℕ) → r < h → c < w → f r c ≡ g r c) where
  -- Only the forcing of the interior counts.
  next_value_forcing :
      (u : ℕ → ℕ → F32) → Agree h w (next_value m params h w f u) (next_value m params h w g u)
  next_value_forcing u r c hr hc = elim (Bool-cases (inside h w r c)) [
    | inr halo ↦ rw halo refl
    | inl interior ↦
        let above : 0 < r = ground arith in
        let below : r ≤ h = ground arith in
        let after : 0 < c = ground arith in
        let before : c ≤ w = ground arith in
        rw (interior, same (r - 1) (c - 1) (omega arith) (omega arith))
  ]

  pub evolved_forcing :
      (steps : ℕ) (u : ℕ → ℕ → F32)
      → Agree h w (evolved m params h w f steps u) (evolved m params h w g steps u)
  evolved_forcing zero u r c hr hc = refl
  evolved_forcing (suc steps) u r c hr hc =
      evolved_forcing steps (next_value m params h w f u) r c hr hc
      ∙ evolved-Agree m params h w g steps _ _ (next_value_forcing u) r c hr hc
