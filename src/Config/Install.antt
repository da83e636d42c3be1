-- ===== src/Config/Install.antt =====
-- The install configuration: initInstallConfig.
use witchcraft_go_server.Base.{
  ◌≡◌, ◌↔◌, ◌∙◌, refl, ap, sym, Bool, ◌⊎◌, inl, inr, Option, none, some, if◌then◌else◌, arith,
}
use witchcraft_go_server.Config.Runtime.{DecryptError}

pub data InstallError (Err : Type 0) : Type 0 where
  load_failed unmarshal_failed validation_failed : Err → InstallError Err
  decrypt_failed : DecryptError Err → InstallError Err

-- The decryption of bytes with its error, the two ways to unmarshal, and the configuration's
-- Validate, if it has one. `validation` is whether InstallConfigValidationOptions are given, and
-- their StrictUnmarshaling.
module _ {Bytes I Err : Type 0} (decrypt : Bytes → Bytes × Option (DecryptError Err))
    (unmarshal unmarshal_strict : Bytes → Err ⊎ I) (validator : Option (I → Option Err))
    (validation : Option Bool) where
  abbrev pub unmarshal_fn : Option Bool → Bytes → Err ⊎ I
  unmarshal_fn none bytes = unmarshal bytes
  unmarshal_fn (some strict) bytes = if strict then unmarshal_strict bytes else unmarshal bytes

  abbrev pub invalid : Option Bool → I → Option Err
  invalid none cfg = none
  invalid (some strict) cfg = elim validator [ none ↦ none | some validate ↦ validate cfg ]

  checked : I → Option Err → InstallError Err ⊎ I
  checked cfg none = inr cfg
  checked cfg (some e) = inl (validation_failed e)

  unmarshalled : Err ⊎ I → InstallError Err ⊎ I
  unfolding checked
  unmarshalled (inl e) = inl (unmarshal_failed e)
  unmarshalled (inr cfg) = checked cfg (invalid validation cfg)

  decrypted : Bytes × Option (DecryptError Err) → InstallError Err ⊎ I
  unfolding unmarshalled
  decrypted (bytes, some e) = inl (decrypt_failed e)
  decrypted (bytes, none) = unmarshalled (unmarshal_fn validation bytes)

  -- `loaded` is what the provider of the bytes answers.
  unfoldable pub init_install_config : Err ⊎ Bytes → InstallError Err ⊎ I
  unfolding decrypted
  init_install_config (inl e) = inl (load_failed e)
  init_install_config (inr bytes) = decrypted (decrypt bytes)

  -- The provider's bytes can be decrypted and read as this configuration, which validates or need
  -- not.
  abbrev pub IsInstall : Err ⊎ Bytes → I → Type 0
  IsInstall (inl e) cfg = ⊥
  IsInstall (inr bytes) cfg =
      ((decrypt bytes).1 ≡ none)
      × (unmarshal_fn validation (decrypt bytes).0 ≡ inr cfg)
      × (invalid validation cfg ≡ none)

  -- The install configuration is the one read exactly when each step succeeds.
  pub init_install_config_iff :
      (loaded : Err ⊎ Bytes) (cfg : I)
      → (init_install_config loaded ≡ inr cfg) ↔ IsInstall loaded cfg
  unfolding init_install_config decrypted unmarshalled checked
  init_install_config_iff (inl e) cfg = ground arith
  init_install_config_iff (inr bytes) cfg = by_plain (decrypt bytes)
    where
      by_check :
          (c : I) (o : Option Err)
          → invalid validation c ≡ o
          → (checked c o ≡ inr cfg)
            ↔ (◌≡◌ {A = Err ⊎ I} (inr c) (inr cfg) × (invalid validation cfg ≡ none))
      by_check c none h = (
        λ e.
            let p : c ≡ cfg = cc in (ap (λ x. inr x) p, ap (λ x. invalid validation x) (sym p) ∙ h),
        λ e. let p : c ≡ cfg = cc in ap (λ x. inr x) p,
      )
      by_check c (some x) h = (
        λ e. absurd (ground arith),
        λ e.
            let p : c ≡ cfg = cc in
            absurd (ground (arith, sym h ∙ ap (λ x. invalid validation x) p ∙ e.1)),
      )

      by_read :
          (u : Err ⊎ I)
          → (unmarshalled u ≡ inr cfg) ↔ ((u ≡ inr cfg) × (invalid validation cfg ≡ none))
      by_read (inl e) = ground arith
      by_read (inr c) = by_check c (invalid validation c) refl

      by_plain :
          (p : Bytes × Option (DecryptError Err))
          → (decrypted p ≡ inr cfg) ↔ (
              (p.1 ≡ none)
              × (unmarshal_fn validation p.0 ≡ inr cfg)
              × (invalid validation cfg ≡ none))
      by_plain (plain, some e) = ground arith
      by_plain (plain, none) =
          let r = by_read (unmarshal_fn validation plain) in
          (λ e. (refl, (r.0 e).0, (r.0 e).1), λ e. r.1 (e.1, e.2))
