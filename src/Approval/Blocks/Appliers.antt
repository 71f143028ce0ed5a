-- ===== src/Approval/Blocks/Appliers.antt =====
-- src/xgen_sdk/approval/blocks.py: the known types of blocks, and the hooks that run when a request is approved.
use xgen_sdk.Prelude.{
  list_beq, Bool, true, false, Option, none, some, List, [], ◌∷◌, ◌≡◌, nat_eq, list_eq, contains,
}
use xgen_sdk.Prelude.Dict.{Dict, get, put, get-put_self}
use xgen_sdk.Py.Text.{Text}
use xgen_sdk.Approval.Blocks.{
  block_type_name, text_block, attachments, evaluation, risk_assessment, normalize_block_type,
}

-- list(REGISTRY.keys())
abbrev pub known_types : List Text
known_types =
    block_type_name text_block ∷ block_type_name attachments ∷ block_type_name evaluation ∷ []

unfoldable pub is_known : Option Text → Bool
is_known block_type = contains (normalize_block_type block_type) known_types

module _ {F : Type 0} where
  -- _APPLIERS[normalize_block_type(block_type)] = fn
  unfoldable pub register_applier : Option Text → F → Dict Text F → Dict Text F
  register_applier block_type fn appliers = put (normalize_block_type block_type) fn appliers

  unfoldable pub applier : Option Text → Dict Text F → Option F
  applier block_type appliers = get (normalize_block_type block_type) appliers

  abbrev is_some : Option F → Bool
  is_some none = false
  is_some (some fn) = true

  unfoldable pub has_applier : Option Text → Dict Text F → Bool
  has_applier block_type appliers = is_some (applier block_type appliers)

  -- A hook that is registered under the old or the new name of the assessment is found under both.
  applier-register_applier_legacy :
      (fn : F) (appliers : Dict Text F)
      → (applier
            (some risk_assessment)
            (register_applier (some (block_type_name evaluation)) fn appliers)
          ≡ some fn)
        × (applier
              (some (block_type_name evaluation))
              (register_applier (some risk_assessment) fn appliers)
            ≡ some fn)
  unfolding applier register_applier normalize_block_type list_beq
  applier-register_applier_legacy fn appliers = (
    get-put_self (block_type_name evaluation) fn appliers,
    get-put_self (block_type_name evaluation) fn appliers,
  )
