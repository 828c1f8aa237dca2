-- ===== src/Node/Command/Specs.antt =====
-- node/src/command.rs: which specification an identifier loads.
use text.Mathlib.TextEquality.{eq_iff}
use evm_parachain.Base.{◌≡◌, ◌⊎◌, inl, inr, String, Result, ok, arith}
use evm_parachain.Node.ChainSpec.{Outside, GenesisSpec, ChainType, development, local}
use evm_parachain.Node.ChainSpec.Accounts.{builtin}
use evm_parachain.Node.Command.{load_spec}

-- The identifiers that name a built-in specification.
abbrev pub Names : ChainType → String → Type 0
Names development id = id ≡ "dev"
Names local id = (id ≡ "template-rococo") ⊎ (id ≡ "") ⊎ (id ≡ "local")

module _ (G : Outside) {Spec : Type 0} (from_genesis : GenesisSpec G → Spec) where
  -- Each name of a built-in specification loads it, whatever files there are.
  pub load_spec-builtin :
      (t : ChainType) (id : String) (from_json_file : String → Result String Spec)
      → Names t id
      → load_spec G from_genesis from_json_file id ≡ ok (from_genesis (builtin G t))
  unfolding load_spec
  load_spec-builtin development id from_json_file h = ground (arith, eq_iff id "dev")
  load_spec-builtin local id from_json_file (inl e) = rw e
  load_spec-builtin local id from_json_file (inr (inl e)) = rw e
  load_spec-builtin local id from_json_file (inr (inr e)) = rw e

  -- An identifier that names no built-in specification is the path of a file, and loads what the
  -- file gives, an error included.
  pub load_spec-file :
      (id : String) (from_json_file : String → Result String Spec)
      → ((t : ChainType) → ¬ Names t id)
      → load_spec G from_genesis from_json_file id ≡ from_json_file id
  unfolding load_spec
  load_spec-file id from_json_file h = ground (
    arith,
    h development,
    h local,
    eq_iff id "dev",
    eq_iff id "template-rococo",
    eq_iff id "",
    eq_iff id "local",
  )
