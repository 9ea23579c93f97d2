-- ===== src/Security/Plugin.antt =====
-- security_toolkit/src/core/plugin.py: plugins, the registry of their classes, and their instances.
-- A plugin class is its name and its constructor, which may raise. Python tells instances apart by
-- identity: `ident` stands for it.
pub mod Registry
use csc512_distributed_syste.Prelude.{
  ℕ, suc, ◌≡◌, ◌↔◌, Bool, true, false, Option, none, some, List, [], ◌∷◌, arith, Eq, if◌then◌else◌,
}
use csc512_distributed_syste.Prelude.Dict.{Dict, put}
use csc512_distributed_syste.Prelude.Text.{Text, text_eq}
use csc512_distributed_syste.Security.Value.{Value}
use csc512_distributed_syste.Security.Finding.{Finding}
use csc512_distributed_syste.Security.Report.{ScanMode, source, runtime, full}

abbrev mode_beq : ScanMode → ScanMode → Bool
mode_beq source source = true
mode_beq runtime runtime = true
mode_beq full full = true
mode_beq _ _ = false

mode_beq_iff : (m n : ScanMode) → (mode_beq m n ≡ true) ↔ (m ≡ n)
mode_beq_iff m n = (λ h. ground arith, λ h. ground arith)

instance unfoldable pub mode_eq : Eq ScanMode
unfolding mode_beq_iff
mode_eq = record { beq = mode_beq; beq_iff = mode_beq_iff }

-- security_toolkit/src/core/models.py: what is to be scanned
pub record TargetProfile : Type 0 where
  pub mode : ScanMode
  pub path : Option Text
  pub image : Option Text
  pub pid : Option ℕ
  pub service_url : Option Text
  pub languages : List Text
  pub has_docker : Bool
  pub has_k8s : Bool
  pub has_terraform : Bool
  pub exposed_ports : List ℕ
  pub metadata : Dict Text Value

-- A call that returns, or raises an exception with a text.
pub data Attempt {ℓ} (A : Type ℓ) : Type ℓ where
  ok : A → Attempt A
  raised : Text → Attempt A

pub record Plugin : Type 0 where
  pub ident : ℕ
  pub name : Text
  pub scan_modes : List ScanMode
  pub can_handle : TargetProfile → Attempt Bool
  pub execute : TargetProfile → Attempt (List Finding)

-- `abstract` says that some abstract method is left, `has_bases` that the class is not the root.
pub record PluginClass : Type 0 where
  pub name : Text
  pub has_bases : Bool
  pub is_abstract : Bool
  pub construct : ℕ → Attempt Plugin

-- `_PluginRegistry.__init__`, run for each class statement
unfoldable pub register : Dict Text PluginClass → PluginClass → Dict Text PluginClass
register registry c =
    if c.has_bases then (if c.is_abstract then registry else put c.name c registry) else registry

unfoldable pub register_all : Dict Text PluginClass → List PluginClass → Dict Text PluginClass
unfolding register
register_all registry [] = registry
register_all registry (c ∷ cs) = register_all (register registry c) cs

-- The next object's identity is `fresh`; a class whose constructor raises is left out.
unfoldable pub instantiate_plugins : ℕ → Dict Text PluginClass → List Plugin
instantiate_plugins fresh [] = []
instantiate_plugins fresh ((key, c) ∷ registry) =
    let rest = instantiate_plugins (suc fresh) registry in
    elim (c.construct fresh) [ ok p ↦ p ∷ rest | raised e ↦ rest ]
