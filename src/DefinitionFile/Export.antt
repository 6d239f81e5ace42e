-- ===== src/DefinitionFile/Export.antt =====
-- An export is imported again as the definitions it was made of.
use alerts.Common.{String, List, [], ◌∷◌, ok, ◌⊎◌, ◌≡◌, ◌<>◌}
use alerts.Common.Int.{ℤ}
use alerts.Model.{Float64, Platform, Time, Series, Rule, AlertDefinition}
use alerts.Store.{Repository}
use alerts.Service.{Service, check_definition, new_definition}
use alerts.DefinitionFile.{Definition, is_enabled}

module _ {F S : Type 0} ⦃fl : Float64 F⦄ ⦃pl : Platform F⦄ (repo : Repository F S)
    (canonical : Series → Rule F → String → String → ℤ → String) where
  -- A definition as Create stores one: its checks take it with its own modes, and its hash is that of its content.
  abbrev pub IsStored : AlertDefinition F → Type 0
  IsStored d =
      (check_definition d.name d.series d.rule d.evaluation_mode d.trigger_mode d.cooldown_seconds
        ≡ ok (d.evaluation_mode, d.trigger_mode))
      × (d.definition_hash
          ≡ "sha256:"
            <> pl.sha256_hex
                (canonical d.series d.rule d.evaluation_mode d.trigger_mode d.cooldown_seconds))

  module _ (v : Service F) (now : Time) where
    -- Create, asked for an entry of a manifest, takes it and looks for the hash of the definition; the entry has the
    -- definition's name and flag.
    abbrev pub Recreates : AlertDefinition F → Definition F → Type 0
    Recreates d p =
        (modes : String × String) × (check_definition p.name p.series p.rule p.evaluation_mode
            p.trigger_mode p.cooldown_seconds
          ≡ ok modes)
        × (let made =
              new_definition repo canonical v p.name p.series p.rule p.cooldown_seconds now modes in
            made.definition_hash ≡ d.definition_hash)
        × (p.name ≡ d.name)
        × (is_enabled p ≡ d.enabled)

    abbrev pub RecreatesOne : List (AlertDefinition F) → Definition F → Type 0
    RecreatesOne [] p = ⊥
    RecreatesOne (d ∷ ds) p = Recreates d p ⊎ RecreatesOne ds p
