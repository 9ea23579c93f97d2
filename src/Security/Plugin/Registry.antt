-- ===== src/Security/Plugin/Registry.antt =====
-- The engine's plugins, made from the registry of classes, are different objects with different names.
use csc512_distributed_syste.Prelude.{
  ℕ, suc, ◌<◌, ◌≡◌, ◌≢◌, refl, sym, ◌∙◌, Eq, sound, inl, inr, Bool-cases, false, List, [], ◌∷◌, map,
  arith, member, nat_eq, Distinct, ◌==◌, All,
}
use csc512_distributed_syste.Prelude.Dict.{Dict, put, keys, put-Distinct}
use csc512_distributed_syste.Prelude.Text.{Text, text_eq, text_beq_iff}
use csc512_distributed_syste.Security.Plugin.{
  Plugin, PluginClass, Attempt, ok, raised, register, register_all, instantiate_plugins,
}

-- The plugins have different names and are different objects, as those of the registry are.
pub record IsRegistered (plugins : List Plugin) : Type 0 where
  pub names : Distinct (map (λ p. p.name) plugins)
  pub idents : Distinct (map (λ p. p.ident) plugins)

-- An instance has the name of its class, and the identity of a new object.
abbrev pub IsHonest : PluginClass → Type 0
IsHonest c = (n : ℕ) (p : Plugin) → c.construct n ≡ ok p → (p.name ≡ c.name) × (p.ident ≡ n)

-- A class is filed under its name.
abbrev IsFiled : Dict Text PluginClass → Type 0
IsFiled registry = All (λ e. (e.1.name ≡ e.0) × IsHonest e.1) registry

put-IsFiled :
    (c : PluginClass) (registry : Dict Text PluginClass)
    → IsHonest c
    → IsFiled registry
    → IsFiled (put c.name c registry)
unfolding put
put-IsFiled c [] h f = ((refl, h), tt)
put-IsFiled c ((key, d) ∷ registry) h f = elim (Bool-cases (key == c.name)) [
  | inl e ↦ rw e ((sym (sound key c.name e), h), f.1)
  | inr e ↦ rw e (f.0, put-IsFiled c registry h f.1)
]

register-IsFiled :
    (registry : Dict Text PluginClass) (c : PluginClass)
    → IsHonest c
    → IsFiled registry
    → Distinct (keys registry)
    → IsFiled (register registry c) × Distinct (keys (register registry c))
unfolding register
register-IsFiled registry c h f d =
    (ground (arith, put-IsFiled c registry h f), ground (arith, put-Distinct c.name c registry d))

register_all-IsFiled :
    (registry : Dict Text PluginClass) (cs : List PluginClass)
    → All IsHonest cs
    → IsFiled registry
    → Distinct (keys registry)
    → IsFiled (register_all registry cs) × Distinct (keys (register_all registry cs))
unfolding register_all
register_all-IsFiled registry [] h f d = (f, d)
register_all-IsFiled registry (c ∷ cs) h f d =
    let (f', d') = register-IsFiled registry c h.0 f d in
    register_all-IsFiled (register registry c) cs h.1 f' d'

module _ {ℓ} {K : Type ℓ} ⦃e : Eq K⦄ (key : Plugin → K) where
  -- An instance whose key is another leaves the absence of a key alone.
  member-instance :
      (k : K) (c : PluginClass) (fresh : ℕ) (rest : List Plugin)
      → ((p : Plugin) → c.construct fresh ≡ ok p → key p ≢ k)
      → member k (map key rest) ≡ false
      → member k (map key (elim (c.construct fresh) [ ok p ↦ p ∷ rest | raised x ↦ rest ])) ≡ false
  unfolding member
  member-instance k c fresh rest other h = go (c.construct fresh) refl
    where
      go :
          (r : Attempt Plugin)
          → c.construct fresh ≡ r
          → member k (map key (elim r [ ok p ↦ p ∷ rest | raised x ↦ rest ])) ≡ false
      go (ok p) q = ground (arith, other p q, e.beq_iff (key p) k)
      go (raised x) q = h

  -- An instance with a key that the others lack leaves the keys distinct.
  Distinct-instance :
      (c : PluginClass) (fresh : ℕ) (rest : List Plugin)
      → ((p : Plugin) → c.construct fresh ≡ ok p → member (key p) (map key rest) ≡ false)
      → Distinct (map key rest)
      → Distinct (map key (elim (c.construct fresh) [ ok p ↦ p ∷ rest | raised x ↦ rest ]))
  Distinct-instance c fresh rest new d = go (c.construct fresh) refl
    where
      go :
          (r : Attempt Plugin)
          → c.construct fresh ≡ r
          → Distinct (map key (elim r [ ok p ↦ p ∷ rest | raised x ↦ rest ]))
      go (ok p) q = (new p q, d)
      go (raised x) q = d

absent_name :
    (k : Text) (fresh : ℕ) (registry : Dict Text PluginClass)
    → IsFiled registry
    → member k (keys registry) ≡ false
    → member k (map (λ p. p.name) (instantiate_plugins fresh registry)) ≡ false
unfolding instantiate_plugins member keys
absent_name k fresh [] f h = refl
absent_name k fresh ((key, c) ∷ registry) f h =
    member-instance (λ p. p.name) k c fresh (instantiate_plugins (suc fresh) registry)
      (λ p q same.
        let named : p.name ≡ c.name = (f.0.1 fresh p q).0 in
        ground (arith, text_beq_iff key k, named, same, f.0.0, h))
      (absent_name k (suc fresh) registry f.1 (ground arith))

absent_ident :
    (n fresh : ℕ) (registry : Dict Text PluginClass)
    → IsFiled registry
    → n < fresh
    → member n (map (λ p. p.ident) (instantiate_plugins fresh registry)) ≡ false
unfolding instantiate_plugins member
absent_ident n fresh [] f h = refl
absent_ident n fresh ((key, c) ∷ registry) f h =
    member-instance (λ p. p.ident) n c fresh (instantiate_plugins (suc fresh) registry)
      (λ p q same.
        let numbered : p.ident ≡ fresh = (f.0.1 fresh p q).1 in omega (arith, numbered, same))
      (absent_ident n (suc fresh) registry f.1 (omega arith))

instantiate_plugins-names :
    (fresh : ℕ) (registry : Dict Text PluginClass)
    → IsFiled registry
    → Distinct (keys registry)
    → Distinct (map (λ p. p.name) (instantiate_plugins fresh registry))
unfolding instantiate_plugins keys
instantiate_plugins-names fresh [] f d = tt
instantiate_plugins-names fresh ((key, c) ∷ registry) f d =
    Distinct-instance (λ p. p.name) c fresh (instantiate_plugins (suc fresh) registry)
      (λ p q.
        let named : p.name ≡ key = (f.0.1 fresh p q).0 ∙ f.0.0 in
        rw named (absent_name key (suc fresh) registry f.1 d.0))
      (instantiate_plugins-names (suc fresh) registry f.1 d.1)

instantiate_plugins-idents :
    (fresh : ℕ) (registry : Dict Text PluginClass)
    → IsFiled registry
    → Distinct (map (λ p. p.ident) (instantiate_plugins fresh registry))
unfolding instantiate_plugins
instantiate_plugins-idents fresh [] f = tt
instantiate_plugins-idents fresh ((key, c) ∷ registry) f =
    Distinct-instance (λ p. p.ident) c fresh (instantiate_plugins (suc fresh) registry)
      (λ p q. rw ((f.0.1 fresh p q).1) (absent_ident fresh (suc fresh) registry f.1 (omega arith)))
      (instantiate_plugins-idents (suc fresh) registry f.1)

-- Whatever classes are declared, also several of one name, the instances that the engine gets are
-- different objects with different names, if each class names its instances after itself.
pub instantiate_plugins-IsRegistered :
    (cs : List PluginClass)
    → All IsHonest cs
    → IsRegistered (instantiate_plugins 0 (register_all [] cs))
instantiate_plugins-IsRegistered cs h =
    let (f, d) = register_all-IsFiled [] cs h tt (unfold keys in tt) in
    record {
      names = instantiate_plugins-names 0 (register_all [] cs) f d;
      idents = instantiate_plugins-idents 0 (register_all [] cs) f;
    }
